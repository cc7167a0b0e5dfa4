-- ===== src/Transfer/Defs.antt =====
-- What a connection has delivered, the system that a transfer runs on, and the states between two
-- events of a transfer.
use imonitor.Base.{
  ℕ, ◌≡◌, false, Option, none, some, [], ◌∷◌, ◌++◌, Bytes, ℤ, is_neg, ◌==◌, ◌==ℤ◌, if◌then◌else◌,
  length, take, drop,
}
use imonitor.Sys.{
  Env, Server, Trace, IoOp, CtlOp, EpollEvent, Iocb, pread, pwrite, io_submit, io_getevents,
  epoll_ctl, malloc_event, io_setup,
}
use imonitor.Aio.{submitted}

-- The bytes of a finished operation that went to a socket: the first `res` of a write to it.
abbrev pub taken : ℤ → Option IoOp → ℕ → Bytes
taken sock (some (pwrite fd text count offset)) res = if fd ==ℤ sock then take res text else []
taken sock (some (pread fd buf count offset)) res = []
taken sock none res = []

-- What the finished writes of a context have delivered to a socket since the context was set up, in
-- order.
unfoldable pub delivered : ℤ → ℕ → Trace → Bytes
unfolding submitted
delivered sock ctx [] = []
delivered sock ctx ((io_getevents k, r) ∷ t) =
    if k == ctx
    then delivered sock ctx t ++ taken sock (submitted ctx t) r.word
    else delivered sock ctx t
delivered sock ctx ((io_setup, r) ∷ t) = if r.word == ctx then [] else delivered sock ctx t
delivered sock ctx (e ∷ t) = delivered sock ctx t

-- The system: no call of the transfer fails, a read of the descriptor `file` yields what `content`
-- holds at its offset, and a write takes as many bytes as it asks for.
pub record Honest (env : Env) (file : ℤ) (content : Bytes) : Type 0 where
  pub ctl_ok :
      (t : Trace) (ep : ℤ) (op : CtlOp) (fd : ℤ) (ev : EpollEvent)
      → is_neg (env.reply t (epoll_ctl ep op fd ev)).rc ≡ false
  pub submit_ok :
      (t : Trace) (ctx : ℕ) (b : Iocb) → is_neg (env.reply t (io_submit ctx b)).rc ≡ false
  pub malloc_ok : (t : Trace) → ((env.reply t malloc_event).word == 0) ≡ false
  pub getevents_ok : (t : Trace) (ctx : ℕ) → is_neg (env.reply t (io_getevents ctx)).rc ≡ false
  pub read_bytes :
      (t : Trace) (ctx buf count offset : ℕ)
      → submitted ctx t ≡ some (pread file buf count offset)
      → (env.reply t (io_getevents ctx)).bytes ≡ take count (drop offset content)
  pub read_res :
      (t : Trace) (ctx buf count offset : ℕ)
      → submitted ctx t ≡ some (pread file buf count offset)
      → (env.reply t (io_getevents ctx)).word ≡ length (take count (drop offset content))
  pub write_res :
      (t : Trace) (ctx : ℕ) (fd : ℤ) (text : Bytes) (count offset : ℕ)
      → submitted ctx t ≡ some (pwrite fd text count offset)
      → (env.reply t (io_getevents ctx)).word ≡ count

-- The descriptors that the loop compares with stay as they are.
abbrev pub Kept : Server → Server → Type 0
Kept s s' = (s'.listenfd ≡ s.listenfd) × (s'.inotifyfd ≡ s.inotifyfd) × (s'.epollfd ≡ s.epollfd)

-- The bytes that one read takes from the file at an offset.
abbrev pub chunk : Env → Bytes → ℕ → Bytes
chunk env content offset = take env.bufsiz (drop offset content)
