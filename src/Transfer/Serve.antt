-- ===== src/Transfer/Serve.antt =====
-- The answer to a request, from the event that lets the server answer to the close.
use imonitor.Base.{
  ℕ, suc, ◌*◌, ◌<◌, ◌≤◌, ◌≡◌, refl, sym, ◌∙◌, ◌++◌, ◌∷◌, ◌≢◌, some, List, [], Bytes, ℤ, pos, arith,
  length, drop, take-append, length-append, length-drop,
}
use imonitor.Sys.{
  Env, Server, Connection, Reply, M, Returns, Returns-bind, Returns-mono, ◌>>◌, c_string,
  state_data_received,
}
use imonitor.Utils.{header200, header404}
use imonitor.Utils.Headers.{
  length-header200, announced, body_of, announced-header200, body_of-header200,
}
use imonitor.Handlers.{handle_work}
use imonitor.Main.{dispatch}
use imonitor.Transfer.Defs.{delivered, Honest}
use imonitor.Transfer.Step.{round-Sending_last, round-Sending_more}
use imonitor.Transfer.Apart.{Apart, Apart-refl, Robust, Robust-round, Robust-rounds, round_events}
use imonitor.Transfer.Rounds.{
  round, Reading, rounds, out_event, Ordinary, Sending, Ordinary-Kept, dispatch-out_event,
}
use imonitor.Transfer.Start.{Stored, Missing, with_header, work_found, work_absent}
use imonitor.Transfer.Complete.{Finished, blocks, rounds-Finished}

-- A connection whose request has been parsed: the path behind its first byte is `path`, and nothing
-- has been sent.
pub record Asked (env : Env) (p : ℕ) (c : Connection) (path : Bytes) (s : Server) : Type 0 where
  pub ordinary : Ordinary p s
  pub live : s.heap p ≡ some c
  pub state : c.state ≡ state_data_received
  pub named : c_string (drop 1 c.request_path) ≡ some path
  pub fits : length c.send_buffer ≡ env.bufsiz
  pub fresh : c.send_len ≡ 0
  pub silent : delivered c.sockfd c.ctx s.trace ≡ []

length-with_header :
    (c : Connection) (header : Bytes)
    → length header < length c.send_buffer
    → length (with_header c header).send_buffer ≡ length c.send_buffer
length-with_header c header h = omega (
  arith,
  length-append header (0 ∷ drop (suc (length header)) c.send_buffer),
  length-drop (suc (length header)) c.send_buffer,
)

-- The event that starts the answer, and the rounds that it takes.
unfoldable pub answer : Env → ℕ → ℕ → M (Unit {0})
answer env p k = dispatch env (out_event p) >> rounds env p k

-- A request for a file that is there, up to the round that sends the 200 header.
pub Sending-found :
    (env : Env) {path : Bytes} {file : ℤ} {content : Bytes}
    → Stored env path file content
    → 109 ≤ env.bufsiz
    → length content < 0x8000_0000
    → (p : ℕ) (c : Connection) (s : Server) → Asked env p c path s
    → Returns
        (λ _.
          Sending env p c.ctx c.sockfd file
            (length content)
            0
            []
            (header200 (pos (length content))))
        (dispatch env (out_event p) s)
Sending-found env {path} {file} {content} stored room small p c s a =
    let header = header200 (pos (length content)) in
    let short = length-header200 (length content) small in
    rw (dispatch-out_event env p a.ordinary) (
      Returns-mono (handle_work env p s) _ _
        (work_found env stored p s c a.live a.state a.named a.fits room small)
        λ _ s1 (h1, del, kept). record {
          c = record (with_header c header) {
            file_dimension = length content;
            data_size = c.header_size;
            fd = file;
          };
          runs = record {
            ordinary = Ordinary-Kept a.ordinary kept;
            live = h1;
            file_open = refl;
            goal = refl;
            so_far = a.fresh;
            fits = length-with_header c header (omega arith) ∙ a.fits;
            sent = del ∙ a.silent;
          };
          context = refl;
          socket = refl;
          state = refl;
          ready =
              take-append header (0 ∷ drop (suc (length header)) c.send_buffer) (length header)
                refl;
        })

-- A connection whose request has been parsed does not depend on other connections.
Asked-Apart :
    {env : Env} {p : ℕ} {c : Connection} {path : Bytes} {s s' : Server}
    → Asked env p c path s
    → Apart p c.ctx s s'
    → Asked env p c path s'
Asked-Apart h a = record {
  ordinary = Ordinary-Kept h.ordinary a.kept;
  live = a.same_here ∙ h.live;
  state = h.state;
  named = h.named;
  fits = h.fits;
  fresh = h.fresh;
  silent = a.same_sent _ ∙ h.silent;
}

-- The events of an answer of `k` rounds.
abbrev pub answer_events : ℕ → ℕ → List Reply
answer_events p k = out_event p ∷ round_events p k

-- The same answer with anything in between that leaves the connection alone.
pub answer-Robust :
    (env : Env) {path : Bytes} {file : ℤ} {content : Bytes}
    → Honest env file content
    → Stored env path file content
    → 109 ≤ env.bufsiz
    → length content < 0x8000_0000
    → (p : ℕ) (c : Connection) (s : Server) → Asked env p c path s
    → Robust env p c.ctx
        (answer_events p (suc (2 * blocks env content)))
        (Finished p c.ctx c.sockfd (header200 (pos (length content)) ++ content))
        s
answer-Robust env honest stored room small p c s asked = (
  (c, (asked.live, refl)),
  λ s1 a.
      Returns-mono (dispatch env (out_event p) s1) _ _
        (Sending-found env stored room small p c s1 (Asked-Apart asked a))
        λ _ s2 r. rounds-Finished env honest p c.ctx (omega arith) (omega arith) s2 r,
)

-- The answer to a request for a file that is there, on a system where no call fails and every
-- write is whole, with a buffer of 109 bytes at least and a file below 2 GB: after the event that
-- starts it, one round for the header and two for each block of the file, the 200 header and the
-- whole file are delivered to the connection's socket, in this order and nothing else, and the
-- connection is freed.
pub answer-found :
    (env : Env) {path : Bytes} {file : ℤ} {content : Bytes}
    → Honest env file content
    → Stored env path file content
    → 109 ≤ env.bufsiz
    → length content < 0x8000_0000
    → (p : ℕ) (c : Connection) (s : Server) → Asked env p c path s
    → Returns
        (λ _. Finished p c.ctx c.sockfd (header200 (pos (length content)) ++ content))
        (answer env p (suc (2 * blocks env content)) s)
unfolding answer
answer-found env {content} honest stored room small p c s a =
    Returns-bind (dispatch env (out_event p) s) _ _ _
      ((answer-Robust env honest stored room small p c s a).1 s (Apart-refl p c.ctx s))
      λ _ s1 r. Robust-rounds env p c.ctx _ (suc (2 * blocks env content)) s1 r

-- What a client makes of what its socket gets as the answer to a request for a file that is there,
-- on a system where no call fails and every write is whole, with a buffer of 109 bytes at least
-- and a file below 2 GB, after one round for the header and two for each block of the file: the
-- length that it announces is the file's, and what stands behind its first empty line is the file.
pub answer-client :
    (env : Env) {path : Bytes} {file : ℤ} {content : Bytes}
    → Honest env file content
    → Stored env path file content
    → 109 ≤ env.bufsiz
    → length content < 0x8000_0000
    → (p : ℕ) (c : Connection) (s : Server) → Asked env p c path s
    → Returns
        (λ _ s'.
          (announced (delivered c.sockfd c.ctx s'.trace) ≡ some (length content))
          × (body_of (delivered c.sockfd c.ctx s'.trace) ≡ some content))
        (answer env p (suc (2 * blocks env content)) s)
answer-client env {content} honest stored room small p c s a =
    Returns-mono (answer env p (suc (2 * blocks env content)) s) _ _
      (answer-found env honest stored room small p c s a)
      λ _ s' (gone, sent). (
        rw sent (announced-header200 (length content) content),
        rw sent (body_of-header200 (length content) content),
      )

-- A request for a file that is not there, up to the round that sends the 404 header.
Sending-absent :
    (env : Env) {path : Bytes}
    → Missing env path
    → 109 ≤ env.bufsiz
    → (p : ℕ) (c : Connection) (s : Server) → Asked env p c path s
    → Returns
        (λ _. Sending env p c.ctx c.sockfd c.fd c.file_dimension 0 [] header404)
        (dispatch env (out_event p) s)
Sending-absent env missing room p c s a = rw (dispatch-out_event env p a.ordinary) (
    Returns-mono (handle_work env p s) _ _
      (work_absent env missing p s c a.live a.state a.named a.fits room)
      λ _ s1 (h1, del, kept). record {
        c = with_header c header404;
        runs = record {
          ordinary = Ordinary-Kept a.ordinary kept;
          live = h1;
          file_open = refl;
          goal = refl;
          so_far = a.fresh;
          fits = length-with_header c header404 (omega arith) ∙ a.fits;
          sent = del ∙ a.silent;
        };
        context = refl;
        socket = refl;
        state = refl;
        ready =
            take-append header404 (0 ∷ drop (suc (length header404)) c.send_buffer)
              (length header404) refl;
      })

module _ (env : Env) {path : Bytes} (missing : Missing env path) {content : Bytes} (p : ℕ)
    (c : Connection) (honest : Honest env c.fd content) (room : 109 ≤ env.bufsiz) where
  -- The answer to a request for a file that is not there, on a system where no call fails and with
  -- a buffer of 109 bytes at least, where the fresh memory of the connection holds 0 as the file's
  -- dimension: after one round the 404 header is delivered to the connection's socket, and the
  -- connection is freed.
  pub answer-missing_closes :
      (s : Server)
      → Asked env p c path s
      → c.file_dimension ≡ 0
      → Returns (λ _. Finished p c.ctx c.sockfd header404) (answer env p 1 s)
  unfolding answer rounds
  answer-missing_closes s a zero_junk =
      Returns-bind (dispatch env (out_event p) s) _ _ _ (Sending-absent env missing room p c s a)
        λ _ s1 r.
          Returns-bind (round env p s1) _ _ _
            (Robust-round env p c.ctx _ [] s1
              (round-Sending_last env honest p c.ctx (sym zero_junk) r))
            λ _ s2 f. f

  -- The answer to a request for a file that is not there, on a system where no call fails and with
  -- a buffer of 109 bytes at least, where the fresh memory of the connection holds another number
  -- than 0 as the file's dimension: after one round the 404 header is delivered to the
  -- connection's socket, the connection stays, and its next round reads from the descriptor in the
  -- fresh memory.
  pub answer-missing_stays :
      (s : Server)
      → Asked env p c path s
      → c.file_dimension ≢ 0
      → Returns
          (λ _. Reading env p c.ctx c.sockfd c.fd c.file_dimension 0 header404)
          (answer env p 1 s)
  unfolding answer rounds
  answer-missing_stays s a junk =
      Returns-bind (dispatch env (out_event p) s) _ _ _ (Sending-absent env missing room p c s a)
        λ _ s1 r.
          Returns-bind (round env p s1) _ _ _
            (Robust-round env p c.ctx _ [] s1
              (round-Sending_more env honest p c.ctx (λ e. junk (sym e)) r))
            λ _ s2 f. f
