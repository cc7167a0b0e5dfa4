-- ===== src/Aio.antt =====
-- The asynchronous file and socket operations of imonitor.c: `read_data`, `send_data`, and what
-- their completion does to memory.
use imonitor.Base.{ℕ, Option, none, some, [], ◌∷◌, Bytes, is_neg, ◌==◌, if◌then◌else◌}
use imonitor.Sys.{
  Env, Connection, M, Trace, IoOp, pread, pwrite, pure, ◌>>=◌, ◌>>◌, die, defined, get, load, store,
  sys, memcpy, eventfd, io_submit, io_setup,
}
use imonitor.WEpoll.{w_epoll_add_ptr_eventfd}

-- What `send_data` asks for: the header once, else as much as was read last. The operation
-- carries the buffer and the count; a count beyond the buffer is an overrun of the kernel's, which
-- `contained` of Safety/Contained finds in the trace.
abbrev pub send_op : Connection → IoOp
send_op c =
    let n = if c.is_header == 0 then c.read_data else c.header_size in
    pwrite c.sockfd c.send_buffer n 0

-- The operation that was submitted last to a context, since `io_setup` returned it.
unfoldable pub submitted : ℕ → Trace → Option IoOp
submitted ctx [] = none
submitted ctx ((io_submit k b, r) ∷ t) = if k == ctx then some b.op else submitted ctx t
submitted ctx ((io_setup, r) ∷ t) = if r.word == ctx then none else submitted ctx t
submitted ctx (e ∷ t) = submitted ctx t

-- A completed read has put its bytes into the buffer that it named.
unfoldable pub complete : Option IoOp → Bytes → M (Unit {0})
complete (some (pread fd buf count offset)) bytes = do
  c ← load buf
  a ← defined (memcpy c.send_buffer bytes)
  store buf (record c { send_buffer = a })
complete (some (pwrite fd text count offset)) bytes = pure tt
complete none bytes = pure tt

module _ (env : Env) where
  -- The statements that the two functions share: a new eventfd, registered, and kept.
  unfoldable pub arm : (p : ℕ) → M Connection
  unfolding w_epoll_add_ptr_eventfd
  arm p = do
    c ← load p
    e ← sys env eventfd
    let c' : Connection = record c { eventfd = e.rc }
    store p c'
    s ← get
    rc ← w_epoll_add_ptr_eventfd env s.epollfd e.rc p
    die (is_neg rc)
    pure c'

  unfoldable pub read_data : (p : ℕ) → M (Unit {0})
  unfolding arm
  read_data p = do
    c ← arm p
    r ←
        sys env
          (io_submit c.ctx (record { op = pread c.fd p env.bufsiz c.send_len; resfd = c.eventfd }))
    die (is_neg r.rc)

  unfoldable pub send_data : (p : ℕ) → M (Unit {0})
  unfolding arm
  send_data p = do
    c ← arm p
    store p (record c { is_header = 0 })
    r ← sys env (io_submit c.ctx (record { op = send_op c; resfd = c.eventfd }))
    die (is_neg r.rc)
