-- ===== src/Request.antt =====
-- The part of imonitor.c that reads a request: the parser's callback and settings,
-- `receive_message` with its loop, and `connection_remove`.
pub mod Arrival
pub mod Failure
pub mod Overrun
pub mod Path
pub mod Receive
pub mod Segments
use imonitor.Base.{
  ℕ, zero, suc, ◌+◌, ◌-◌, Bool, false, Option, none, some, List, [], ◌∷◌, ◌++◌, Bytes, codes, ℤ,
  pos, is_neg, pos_part, to_int, ◌==ℤ◌, if◌then◌else◌, replicate,
}
use imonitor.Sys.{
  Env, ConnectionState, M, pure, ◌>>=◌, ◌>>◌, starved, die, defined, get, modify, load, store, sys,
  update, c_string, memcpy, memcpy_at, strcpy, recv, close, io_destroy, free, state_data_received,
  state_connection_closed, ParserCall, message_begin, path, query_string, url, fragment,
  header_field, header_value, headers_complete, body, message_complete,
}
use imonitor.Debug.{dlog, log_info, log_err}
use Prim.Native.String.{String}
use mathlib.Core.Option
use imonitor.SockUtil.{get_peer_address}
use imonitor.Utils.{is_req_finished}
use imonitor.WEpoll.{w_epoll_remove_ptr}

-- `memcpy(request_path, buf, len)` into the global array.
unfoldable pub on_path_cb : Bytes → M ℤ
on_path_cb buf = do
  s ← get
  a ← defined (memcpy s.request_path buf)
  modify (λ t. record t { request_path = a })
  pure (pos 0)

-- `struct http_parser_settings`, in its order; `none` is a null pointer.
pub record ParserSettings : Type 0 where
  pub on_message_begin : Option (M ℤ)
  pub on_path : Option (Bytes → M ℤ)
  pub on_query_string : Option (Bytes → M ℤ)
  pub on_url : Option (Bytes → M ℤ)
  pub on_fragment : Option (Bytes → M ℤ)
  pub on_header_field : Option (Bytes → M ℤ)
  pub on_header_value : Option (Bytes → M ℤ)
  pub on_headers_complete : Option (M ℤ)
  pub on_body : Option (Bytes → M ℤ)
  pub on_message_complete : Option (M ℤ)

-- The initialiser lists ten values, and C gives them to the fields in the struct's order: the
-- fourth is `on_url`. Null fits a field of either callback type.
unfoldable pub settings_on_path : ParserSettings
unfolding on_path_cb
settings_on_path = record {
  on_message_begin = none;
  on_path = none;
  on_query_string = none;
  on_url = some on_path_cb;
  on_fragment = none;
  on_header_field = none;
  on_header_value = none;
  on_headers_complete = none;
  on_body = none;
  on_message_complete = none;
}

abbrev notify : Option (M ℤ) → M ℤ
notify none = pure (pos 0)
notify (some cb) = cb

abbrev hand : Option (Bytes → M ℤ) → Bytes → M ℤ
hand none at = pure (pos 0)
hand (some cb) at = cb at

-- What the parser does at one of its calls: nothing where the setting is null.
unfoldable pub callback : ParserSettings → ParserCall → M ℤ
callback t message_begin = notify t.on_message_begin
callback t (path at) = hand t.on_path at
callback t (query_string at) = hand t.on_query_string at
callback t (url at) = hand t.on_url at
callback t (fragment at) = hand t.on_fragment at
callback t (header_field at) = hand t.on_header_field at
callback t (header_value at) = hand t.on_header_value at
callback t headers_complete = notify t.on_headers_complete
callback t (body at) = hand t.on_body at
callback t message_complete = notify t.on_message_complete

-- The calls of one `http_parser_execute`; one that returns another number than 0 ends it.
unfoldable pub callbacks : ParserSettings → List ParserCall → M (Unit {0})
unfolding callback
callbacks t [] = pure tt
callbacks t (c ∷ cs) =
    let rest = callbacks t cs in do rc ← callback t c; if rc ==ℤ pos 0 then rest else pure tt

-- How the receiving loop ends; `received` holds what the last `recv` returned.
pub data Received : Type 0 where
  received : ℕ → Received
  peer_closed recv_failed : Received

-- A format with the string in `abuffer`, and the end of the line.
unfoldable pub peer_line : String → Bytes → Option Bytes
peer_line text abuffer = Option.map (λ s. codes text ++ s ++ 10 ∷ []) (c_string abuffer)

module _ (env : Env) where
  -- One `recv` behind the `offset` bytes that are there. It returns the loop's end, or the
  -- number of bytes and the new offset with the loop's test.
  unfoldable pub receive_once : (p offset : ℕ) → M (Received × ℕ × Bool)
  receive_once p offset = do
    c ← load p
    r ← sys env (recv c.sockfd (env.bufsiz - offset))
    if is_neg r.rc
        then pure (recv_failed, offset, false)
        else if r.rc ==ℤ pos 0
        then pure (peer_closed, offset, false)
        else do
          a ← defined (memcpy_at c.recv_buffer offset r.bytes)
          store p (record c { recv_buffer = a })
          let sum = to_int (pos (offset + pos_part r.rc))
          die (is_neg sum)
          more ← defined (is_req_finished a (pos_part sum))
          pure (received (pos_part r.rc), pos_part sum, more)

  -- `do { ... } while (is_req_finished(conn->recv_buffer, offset))`
  unfoldable pub receive_loop : (fuel p offset : ℕ) → M Received
  unfolding receive_once
  receive_loop zero p offset = λ s. starved s
  receive_loop (suc fuel) p offset = do
    (end, total, more) ← receive_once p offset
    let rest = receive_loop fuel p total
    if more then rest else pure end

  unfoldable pub connection_remove : (p : ℕ) → M (Unit {0})
  connection_remove p = do
    c ← load p
    sys env (close c.fd) >> sys env (io_destroy c.ctx) >> sys env (close c.sockfd)
    store p (record c { state = state_connection_closed })
    modify (λ s. record s { heap = update s.heap p none })
    sys env (free p) >> pure tt

  -- The label `remove_connection` of `receive_message`.
  unfoldable pub abandon : (p : ℕ) → M ConnectionState
  unfolding w_epoll_remove_ptr connection_remove
  abandon p = do
    c ← load p
    s ← get
    rc ← w_epoll_remove_ptr env s.epollfd c.eventfd p
    die (is_neg rc)
    rc ← w_epoll_remove_ptr env s.epollfd c.sockfd p
    die (is_neg rc)
    connection_remove p
    pure state_connection_closed

  -- The statements behind the loop: parse what arrived, and keep the path.
  unfoldable pub parse_request : (p last : ℕ) → M ConnectionState
  unfolding callbacks settings_on_path
  parse_request p last = do
    c ← load p
    text ← defined (c_string c.recv_buffer)
    modify (λ s. record s { request_path = replicate env.bufsiz 0 })
    callbacks settings_on_path (env.parse text)
    s ← get
    a ← defined (strcpy (replicate env.bufsiz 0) s.request_path)
    store p (record c { request_path = a; recv_len = last; state = state_data_received })
    pure state_data_received

  -- `abuffer` holds the peer's address.
  unfoldable pub after_receive : (p : ℕ) (abuffer : Bytes) → Received → M ConnectionState
  unfolding abandon parse_request
  after_receive p abuffer (received n) = do
    dlog env log_info "receive_message" 187 (peer_line "Received message from: " abuffer)
    parse_request p n
  after_receive p abuffer peer_closed = do
    dlog env log_info "receive_message" 179 (peer_line "Connection closed from: " abuffer)
    c ← load p
    store p (record c { state = state_connection_closed })
    pure state_connection_closed
  after_receive p abuffer recv_failed = do
    dlog env log_err "receive_message" 174 (peer_line "Error in communication from: " abuffer)
    abandon p

  -- Each round but the last takes a byte at least, so one round more than the buffer has bytes
  -- is enough.
  unfoldable pub receive_message : (p : ℕ) → M ConnectionState
  unfolding get_peer_address receive_loop after_receive
  receive_message p = do
    c ← load p
    (rc, abuffer) ← get_peer_address env c.sockfd (replicate 64 0)
    if is_neg rc
        then abandon p
        else do end ← receive_loop (suc env.bufsiz) p 0; after_receive p abuffer end
