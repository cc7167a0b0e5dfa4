-- ===== src/Main.antt =====
-- `main` of imonitor.c: the start, and the loop over the events of epoll.
pub mod Looked
pub mod Waiting
use imonitor.Base.{
  ℕ, zero, suc, some, [], ◌∷◌, ◌++◌, Bytes, codes, replicate, ℤ, pos, negsuc, is_neg, ◌==ℤ◌,
  if◌then◌else◌,
}
use mathlib.Core.Option
use imonitor.Sys.{
  Env, M, Reply, Utmpx, empty, pure, ◌>>=◌, ◌>>◌, halt, die, get, modify, sys, open_file, o_rdwr,
  o_rdonly, inotify_init, inotify_add_watch, read, lseek, seek_end,
}
use imonitor.Handlers.{handle_new_connection, handle_work, handle_epollin}
use imonitor.Logfile.{auth_log_path, write_log, create_logfile, file_exists}
use imonitor.Debug.{dlog, log_info}
use imonitor.Utils.{decimal}
use imonitor.SockUtil.{default_listen_backlog, tcp_create_listener}
use imonitor.WEpoll.{fd_of, w_epoll_create, w_epoll_add_fd_in, w_epoll_wait_infinite}

abbrev pub imonitor_listen_port : ℕ
imonitor_listen_port = 8888

-- `memset(&ut, 0, sizeof(ut))`
abbrev pub zero_utmpx : Utmpx
zero_utmpx = record {
  ut_type = empty;
  ut_pid = pos 0;
  ut_line = replicate 32 0;
  ut_id = replicate 4 0;
  ut_user = replicate 32 0;
  ut_host = replicate 256 0;
  tv_sec = pos 0;
}

-- `-sizeof(ut)` as an offset.
abbrev pub minus : ℕ → ℤ
minus zero = pos 0
minus (suc n) = negsuc n

-- The format of the line that reports the port.
unfoldable pub waiting_text : (port : ℕ) → Bytes
unfolding decimal
waiting_text port = codes "Server waiting for connections on port " ++ decimal port ++ 10 ∷ []

module _ (env : Env) where
  -- The branch of the loop for a change of the login database.
  unfoldable pub handle_inotify : (fd : ℤ) → M (Unit {0})
  unfolding write_log
  handle_inotify fd = do
    r ← sys env (read fd env.bufsiz)
    die (is_neg r.rc)
    f ← sys env (open_file env.path_wtmp (o_rdonly ∷ []))
    die (is_neg f.rc)
    sys env (lseek f.rc (minus env.sizeof_utmpx) seek_end)
    r ← sys env (read f.rc env.sizeof_utmpx)
    die (is_neg r.rc)
    write_log env (Option.get_or r.entry zero_utmpx)

  -- The body of the loop behind the wait, for the event that was delivered.
  unfoldable pub dispatch : (rev : Reply) → M (Unit {0})
  unfolding handle_new_connection handle_inotify handle_work handle_epollin
  dispatch rev = do
    s ← get
    if fd_of rev.word ==ℤ s.listenfd
        then (if rev.mask.epollin then handle_new_connection env else pure tt)
        else if fd_of rev.word ==ℤ s.inotifyfd
        then handle_inotify (fd_of rev.word)
        else if rev.mask.epollout
        then handle_work env rev.word
        else if rev.mask.epollin
        then handle_epollin env rev.word
        else halt

  unfoldable pub serve_once : M (Unit {0})
  unfolding w_epoll_wait_infinite dispatch
  serve_once = do
    s ← get
    rev ← w_epoll_wait_infinite env s.epollfd
    die (is_neg rev.rc)
    dispatch rev

  -- The first `rounds` rounds of the endless loop.
  unfoldable pub serve : (rounds : ℕ) → M (Unit {0})
  unfolding serve_once
  serve zero = pure tt
  serve (suc rounds) = serve_once >> serve rounds

  -- The log file is created, or opened where it is found.
  unfoldable pub start_log : (fuel : ℕ) → M (Unit {0})
  unfolding file_exists create_logfile
  start_log fuel = do
    found ← file_exists env auth_log_path
    if found
        then (do
          r ← sys env (open_file auth_log_path (o_rdwr ∷ []))
          modify (λ s. record s { logfd = r.rc }))
        else create_logfile env fuel

  -- The descriptors that the loop waits for are opened and registered.
  unfoldable pub start_waiting : M (Unit {0})
  unfolding w_epoll_create w_epoll_add_fd_in tcp_create_listener
  start_waiting = do
    epollfd ← w_epoll_create env
    modify (λ s. record s { epollfd = epollfd })
    die (is_neg epollfd)
    i ← sys env inotify_init
    modify (λ s. record s { inotifyfd = i.rc })
    die (is_neg i.rc)
    w ← sys env (inotify_add_watch i.rc env.path_wtmp)
    modify (λ s. record s { wtmpfd = w.rc })
    die (is_neg w.rc)
    rc ← w_epoll_add_fd_in env epollfd i.rc
    die (is_neg rc)
    listenfd ← tcp_create_listener env imonitor_listen_port default_listen_backlog
    modify (λ s. record s { listenfd = listenfd })
    die (is_neg listenfd)
    rc ← w_epoll_add_fd_in env epollfd listenfd
    die (is_neg rc)
    dlog env log_info "main" 550 (some (waiting_text imonitor_listen_port))

  unfoldable pub start : (fuel : ℕ) → M (Unit {0})
  unfolding start_log start_waiting
  start fuel = start_log fuel >> start_waiting

  -- `fuel` bounds the entries of the login database, `rounds` the events that are served.
  unfoldable pub main : (fuel rounds : ℕ) → M (Unit {0})
  unfolding start serve
  main fuel rounds = start fuel >> serve rounds
