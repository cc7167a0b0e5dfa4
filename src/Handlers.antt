-- ===== src/Handlers.antt =====
-- The event handlers of imonitor.c: a new connection, a request, EPOLLOUT (`handle_work`), a
-- finished operation (`handle_work_done`), and EPOLLIN (`handle_epollin`).
use imonitor.Base.{
  ℕ, Bool, true, false, some, ◌++◌, Bytes, codes, ℤ, pos, is_neg, ◌==◌, if◌then◌else◌, drop,
  replicate, to_int, to_size, add_size,
}
use imonitor.Sys.{
  Env, Reply, Connection, ConnectionState, M, pure, ◌>>=◌, ◌>>◌, halt, die, defined, get, load,
  store, sys, strlen, c_string, state_data_received, state_connection_closed, state_reading,
  state_sending, state_new_conn, malloc_connection, malloc_event, close, accept, fcntl_getfl,
  fcntl_setfl, io_setup, io_getevents, open_file, o_rdwr, lseek, seek_set, seek_end,
}
use mathlib.Core.List.{[], ◌∷◌}
use imonitor.Request.{connection_remove, receive_message}
use imonitor.Debug.{dlog, log_info, message}
use imonitor.SockUtil.{peer_text}
use imonitor.Aio.{submitted, complete, read_data, send_data}
use imonitor.Utils.{is_file, write_http200_header, write_http404_header}
use imonitor.WEpoll.{
  w_epoll_add_ptr_in, w_epoll_update_ptr_in, w_epoll_update_ptr_out, w_epoll_update_ptr_inout,
  w_epoll_remove_ptr,
}

-- The format of the line that reports a new connection.
unfoldable pub accepted_text : Reply → Bytes
unfolding peer_text
accepted_text a = codes "Accepted connection from: " ++ peer_text a ++ 10 ∷ []

abbrev is_closed : ConnectionState → Bool
is_closed state_connection_closed = true
is_closed _ = false

module _ (env : Env) where
  -- The fields that are not assigned hold what the fresh memory holds.
  unfoldable pub connection_create : (sockfd : ℤ) → M ℕ
  connection_create sockfd = do
    s ← get
    let junk = env.junk s.trace
    r ← sys env malloc_connection
    die (r.word == 0)
    store r.word (record junk {
      sockfd = sockfd;
      recv_buffer = replicate env.bufsiz 0;
      send_buffer = replicate env.bufsiz 0;
    })
    pure r.word

  unfoldable pub handle_new_connection : M (Unit {0})
  unfolding connection_create w_epoll_add_ptr_in
  handle_new_connection = do
    s ← get
    a ← sys env (accept s.listenfd)
    die (is_neg a.rc)
    flags ← sys env (fcntl_getfl a.rc)
    sys env (fcntl_setfl a.rc flags.rc true)
    dlog env log_info "handle_new_connection" 134 (some (accepted_text a))
    p ← connection_create a.rc
    c ← load p
    r ← sys env io_setup
    store p (record c { send_len = 0; is_header = 0; state = state_new_conn; ctx = r.word })
    die (is_neg r.rc)
    rc ← w_epoll_add_ptr_in env s.epollfd a.rc p
    die (is_neg rc)

  unfoldable pub handle_client_request : (p : ℕ) → M (Unit {0})
  unfolding receive_message w_epoll_update_ptr_inout
  handle_client_request p = do
    ret ← receive_message env p
    if is_closed ret then pure tt else do
      c ← load p
      s ← get
      rc ← w_epoll_update_ptr_inout env s.epollfd c.sockfd p
      die (is_neg rc)

  -- The case `STATE_DATA_RECEIVED` where the file is there, up to the shared statements.
  unfoldable pub start_file : Connection → M Connection
  unfolding write_http200_header
  start_file c = do
    path ← defined (c_string (drop 1 c.request_path))
    f ← sys env (open_file path (o_rdwr ∷ []))
    die (is_neg f.rc)
    r ← sys env (lseek f.rc (pos 0) seek_end)
    let size = to_int r.rc
    die (is_neg size)
    r ← sys env (lseek f.rc (pos 0) seek_set)
    die (is_neg (to_int r.rc))
    a ← defined (write_http200_header c.send_buffer size)
    pure (record c {
      send_buffer = a;
      file_dimension = to_size size;
      data_size = c.header_size;
      fd = f.rc;
    })

  unfoldable pub start_missing : Connection → M Connection
  unfolding write_http404_header
  start_missing c = do
    dlog env log_info "handle_work" 379 (some (message "Sending HTTP header for 404 Not Found"))
    a ← defined (write_http404_header c.send_buffer)
    pure (record c { send_buffer = a })

  unfoldable pub start_header : (p : ℕ) → M (Unit {0})
  unfolding is_file start_file start_missing
  start_header p = do
    c ← load p
    found ← is_file env c.request_path
    c ← if found then start_file c else start_missing c
    n ← defined (strlen c.send_buffer)
    store p (record c { header_size = n; is_header = 1; state = state_sending })

  -- What the cases `STATE_READING` and `STATE_SENDING` end with: wait for the operation only.
  unfoldable pub wait_in : (p : ℕ) → M (Unit {0})
  unfolding w_epoll_update_ptr_in
  wait_in p = do
    c ← load p
    s ← get
    rc ← w_epoll_update_ptr_in env s.epollfd c.sockfd p
    die (is_neg rc)

  unfoldable pub work : ConnectionState → (p : ℕ) → M (Unit {0})
  unfolding start_header read_data send_data wait_in
  work state_data_received p = start_header p
  work state_reading p = read_data env p >> wait_in p
  work state_sending p = send_data env p >> wait_in p
  work _ p = halt

  unfoldable pub handle_work : (p : ℕ) → M (Unit {0})
  unfolding work
  handle_work p = do c ← load p; work c.state p

  -- `w_epoll_update_ptr_out` and the new state.
  unfoldable pub resume : (p : ℕ) → Connection → ConnectionState → M (Unit {0})
  unfolding w_epoll_update_ptr_out
  resume p c next = do
    s ← get
    rc ← w_epoll_update_ptr_out env s.epollfd c.sockfd p
    die (is_neg rc)
    store p (record c { state = next })

  -- The label `remove_connection` of `handle_work_done`.
  unfoldable pub finish : (p : ℕ) → Connection → M (Unit {0})
  unfolding w_epoll_remove_ptr connection_remove
  finish p c = do
    s ← get
    rc ← w_epoll_remove_ptr env s.epollfd c.sockfd p
    die (is_neg rc)
    connection_remove env p

  -- The switch of `handle_work_done`; `res` is `events->res`.
  unfoldable pub work_done : ConnectionState → (p res : ℕ) → M (Unit {0})
  unfolding resume finish
  work_done state_reading p res = do
    c ← load p
    resume p (record c { send_len = add_size c.send_len res; read_data = res }) state_sending
  work_done state_sending p res = do
    c ← load p
    if c.send_len == c.file_dimension
        then (do
          dlog env log_info "handle_work_done" 442 (some (message "Logfile sent succesfully.\n"))
          finish p c)
        else resume p c state_reading
  work_done _ p res = halt

  unfoldable pub handle_work_done : (p : ℕ) → M (Unit {0})
  unfolding w_epoll_remove_ptr submitted complete work_done
  handle_work_done p = do
    c ← load p
    s ← get
    rc ← w_epoll_remove_ptr env s.epollfd c.eventfd p
    die (is_neg rc)
    sys env (close c.eventfd)
    m ← sys env malloc_event
    die (m.word == 0)
    s ← get
    r ← sys env (io_getevents c.ctx)
    die (is_neg r.rc)
    complete (submitted c.ctx s.trace) r.bytes
    work_done c.state p r.word

  unfoldable pub epollin : ConnectionState → (p : ℕ) → M (Unit {0})
  unfolding handle_client_request handle_work_done
  epollin state_new_conn p = handle_client_request p
  epollin _ p = handle_work_done p

  unfoldable pub handle_epollin : (p : ℕ) → M (Unit {0})
  unfolding epollin
  handle_epollin p = do c ← load p; epollin c.state p
