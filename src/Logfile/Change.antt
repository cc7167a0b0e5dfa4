-- ===== src/Logfile/Change.antt =====
-- A change of the login database: what the loop of `main` adds to the log file.
use imonitor.Base.{ℕ, ◌≡◌, true, false, [], ◌∷◌, ℤ, is_neg, ◌==ℤ◌, ◌≤◌}
use mathlib.Core.Option
use imonitor.Sys.{
  Env, Server, Trace, Reply, Utmpx, Returns, Returns-mono, called, die-pass, read, open_file,
  o_rdonly, lseek, seek_end,
}
use imonitor.WEpoll.{fd_of}
use imonitor.Logfile.{write_log}
use imonitor.Logfile.Columns.{IsEntry}
use imonitor.Logfile.Line.{written, added, Writable, Logged, write_log-added}
use imonitor.Main.{handle_inotify, dispatch, minus, zero_utmpx}

-- The login database opens, and no read fails.
pub record Readable (env : Env) : Type 0 where
  pub opens :
      (t : Trace) → is_neg (env.reply t (open_file env.path_wtmp (o_rdonly ∷ []))).rc ≡ false
  pub reads : (t : Trace) (fd : ℤ) (count : ℕ) → is_neg (env.reply t (read fd count)).rc ≡ false

-- The event that the login database has changed.
pub record LoginChanged (s : Server) (rev : Reply) : Type 0 where
  pub no_listener : (fd_of rev.word ==ℤ s.listenfd) ≡ false
  pub inotify : (fd_of rev.word ==ℤ s.inotifyfd) ≡ true

module _ (env : Env) (s : Server) (fd : ℤ) where
  -- The three calls before the last read.
  abbrev before_read : Server
  before_read =
      let s1 : Server = called env (read fd env.bufsiz) s in
      let open_wtmp = open_file env.path_wtmp (o_rdonly ∷ []) in
      let s2 : Server = called env open_wtmp s1 in
      called env (lseek (env.reply s1.trace open_wtmp).rc (minus env.sizeof_utmpx) seek_end) s2

  -- The entry at the end of the login database, as the server reads it: the cleared one if there is
  -- none.
  abbrev pub last_entry : Utmpx
  last_entry =
      let wtmp =
        (env.reply (called env (read fd env.bufsiz) s).trace
          (open_file env.path_wtmp (o_rdonly ∷ []))).rc in
      Option.get_or (env.reply before_read.trace (read wtmp env.sizeof_utmpx)).entry zero_utmpx

-- Where the login database opens and no read and no write fails, with a buffer of 284 bytes at least
-- and an entry with a NUL in its id, user and host: the event that the database has changed adds to the
-- log file the line of the entry at the database's end, if that is of one of the four types, and
-- nothing otherwise; it changes no connection.
pub dispatch-added :
    (env : Env)
    → Readable env
    → Writable env
    → 284 ≤ env.bufsiz
    → (s : Server) (rev : Reply) → LoginChanged s rev
    → IsEntry env (last_entry env s (fd_of rev.word))
    → Returns
        (λ _ s'. Logged (added env (last_entry env s (fd_of rev.word))) s s')
        (dispatch env rev s)
unfolding dispatch handle_inotify written
dispatch-added env readable writable room s rev changed e =
    let fd = fd_of rev.word in
    let s3 : Server = before_read env s fd in
    let wtmp =
      (env.reply (called env (read fd env.bufsiz) s).trace
        (open_file env.path_wtmp (o_rdonly ∷ []))).rc in
    let s4 : Server = called env (read wtmp env.sizeof_utmpx) s3 in
    rw
      (
        changed.no_listener,
        changed.inotify,
        die-pass _ _ (readable.reads s.trace fd env.bufsiz),
        die-pass _ _ (readable.opens _),
        die-pass _ _ (readable.reads _ wtmp env.sizeof_utmpx),
      )
      (Returns-mono (write_log env (last_entry env s fd) s4) _ _
        (write_log-added env writable room (last_entry env s fd) s4 e)
        λ _ s5 logged. record {
          same_file = logged.same_file;
          same_heap = logged.same_heap;
          same_entry = logged.same_entry;
          line = logged.line;
        })
