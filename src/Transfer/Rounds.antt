-- ===== src/Transfer/Rounds.antt =====
-- A round of a transfer: the event that the socket can be written, and the event that the submitted
-- operation is finished, both through the loop's dispatch.
use imonitor.Base.{
  ℕ, zero, suc, ◌≡◌, ◌⊎◌, inl, inr, false, some, none, [], Bytes, ℤ, pos, if◌then◌else◌, ◌==◌,
  ◌==ℤ◌, length, take,
}
use imonitor.Sys.{
  Env, Server, Connection, Reply, M, pure, ◌>>◌, state_sending, state_reading, load-some,
}
use imonitor.WEpoll.{epollin, epollout, fd_of}
use imonitor.Handlers.{handle_work, handle_work_done, handle_epollin}
use imonitor.Main.{dispatch}
use imonitor.Transfer.Defs.{delivered, Kept}

-- The socket of the connection at `p` can be written.
abbrev pub out_event : ℕ → Reply
out_event p = record { rc = pos 1; bytes = []; word = p; mask = epollout; entry = none }

-- An eventfd of the connection at `p` can be read.
abbrev pub in_event : ℕ → Reply
in_event p = record { rc = pos 1; bytes = []; word = p; mask = epollin; entry = none }

unfoldable pub round : Env → ℕ → M (Unit {0})
round env p = dispatch env (out_event p) >> dispatch env (in_event p)

unfoldable pub rounds : Env → ℕ → ℕ → M (Unit {0})
rounds env p zero = pure tt
rounds env p (suc k) = round env p >> rounds env p k

-- The address is not taken for one of the two descriptors that the loop compares it with.
pub record Ordinary (p : ℕ) (s : Server) : Type 0 where
  pub not_listener : (fd_of p ==ℤ s.listenfd) ≡ false
  pub not_inotify : (fd_of p ==ℤ s.inotifyfd) ≡ false

-- What holds of the connection `c` at `p` between two rounds: `n` bytes are counted as read, `out`
-- is delivered to its socket, and the transfer is to stop at `dimension` bytes.
pub record Runs (env : Env) (p : ℕ) (file : ℤ) (dimension : ℕ) (c : Connection) (n : ℕ)
    (out : Bytes) (s : Server) : Type 0 where
  pub ordinary : Ordinary p s
  pub live : s.heap p ≡ some c
  pub file_open : c.fd ≡ file
  pub goal : c.file_dimension ≡ dimension
  pub so_far : c.send_len ≡ n
  pub fits : length c.send_buffer ≡ env.bufsiz
  pub sent : delivered c.sockfd c.ctx s.trace ≡ out

-- The next round reads from the file.
pub record Reading (env : Env) (p ctx : ℕ) (sock file : ℤ) (dimension n : ℕ) (out : Bytes)
    (s : Server) : Type 0 where
  pub c : Connection
  pub runs : Runs env p file dimension c n out s
  pub context : c.ctx ≡ ctx
  pub socket : c.sockfd ≡ sock
  pub plain : c.is_header ≡ 0
  pub state : c.state ≡ state_reading

-- The next round writes `text` to the socket.
pub record Sending (env : Env) (p ctx : ℕ) (sock file : ℤ) (dimension n : ℕ) (out text : Bytes)
    (s : Server) : Type 0 where
  pub c : Connection
  pub runs : Runs env p file dimension c n out s
  pub context : c.ctx ≡ ctx
  pub socket : c.sockfd ≡ sock
  pub state : c.state ≡ state_sending
  pub ready : take (if c.is_header == 0 then c.read_data else c.header_size) c.send_buffer ≡ text

pub Ordinary-Kept : {p : ℕ} {s s' : Server} → Ordinary p s → Kept s s' → Ordinary p s'
Ordinary-Kept o (l, i, e) = record {
  not_listener = rw l o.not_listener;
  not_inotify = rw i o.not_inotify;
}

module _ (env : Env) (p : ℕ) {s : Server} (o : Ordinary p s) where
  pub dispatch-out_event : dispatch env (out_event p) s ≡ handle_work env p s
  unfolding dispatch
  dispatch-out_event = rw (o.not_listener, o.not_inotify)

  handle_epollin-busy :
      (c : Connection)
      → s.heap p ≡ some c
      → (c.state ≡ state_reading) ⊎ (c.state ≡ state_sending)
      → handle_epollin env p s ≡ handle_work_done env p s
  unfolding handle_epollin
  handle_epollin-busy c h e = rw (load-some p s h) (elim e [
    | inl reading ↦ rw (reading, load-some p s h, reading)
    | inr sending ↦ rw (sending, load-some p s h, sending)
  ])

  pub dispatch-in_event :
      (c : Connection)
      → s.heap p ≡ some c
      → (c.state ≡ state_reading) ⊎ (c.state ≡ state_sending)
      → dispatch env (in_event p) s ≡ handle_work_done env p s
  unfolding dispatch
  dispatch-in_event c h e = rw (o.not_listener, o.not_inotify) (handle_epollin-busy c h e)
