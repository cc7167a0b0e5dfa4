-- ===== src/Sys/Types.antt =====
-- The data of imonitor.c: `enum connection_state`, `struct connection` and the file's globals.
use imonitor.Base.{ℕ, Option, List, Bytes, ℤ, ◌==◌, if◌then◌else◌}
use imonitor.Sys.Calls.{Call, Reply, Trace}

pub data ConnectionState : Type 0 where
  state_data_received : ConnectionState
  state_connection_closed : ConnectionState
  state_reading : ConnectionState
  state_sending : ConnectionState
  state_new_conn : ConnectionState

pub record Connection : Type 0 where
  pub sockfd : ℤ
  pub recv_buffer : Bytes
  pub recv_len : ℕ
  pub send_buffer : Bytes
  pub send_len : ℕ
  pub state : ConnectionState
  pub request_path : Bytes
  pub eventfd : ℤ
  pub file_dimension : ℕ
  pub ctx : ℕ
  pub header_size : ℕ
  pub data_size : ℕ
  pub is_header : ℕ
  pub read_data : ℕ
  pub fd : ℤ

-- The connections that are allocated, by address.
abbrev pub Heap : Type 0
Heap = ℕ → Option Connection

-- `none` frees the address.
abbrev pub update : Heap → ℕ → Option Connection → Heap
update h p c q = if q == p then c else h q

-- The globals, the heap, and what the program has done so far.
pub record Server : Type 0 where
  pub listenfd : ℤ
  pub epollfd : ℤ
  pub inotifyfd : ℤ
  pub wtmpfd : ℤ
  pub logfd : ℤ
  pub request_path : Bytes
  pub heap : Heap
  pub trace : Trace

-- A callback that the HTTP parser makes, in the order of `struct http_parser_settings`.
pub data ParserCall : Type 0 where
  message_begin : ParserCall
  path : Bytes → ParserCall
  query_string : Bytes → ParserCall
  url : Bytes → ParserCall
  fragment : Bytes → ParserCall
  header_field : Bytes → ParserCall
  header_value : Bytes → ParserCall
  headers_complete : ParserCall
  body : Bytes → ParserCall
  message_complete : ParserCall

-- What the program does not implement. `reply` is the system: it may answer by all that was done
-- before, so any behaviour of kernel, network and files is one such function. `junk` is what fresh
-- memory holds, `junk_half` the upper half of an uninitialised `epoll_data`. `parse` stands for
-- `http_parser_execute` on a parser that was just initialised: the callbacks that it makes, in
-- order, on the given bytes.
pub record Env : Type 0 where
  pub reply : Trace → Call → Reply
  pub junk : Trace → Connection
  pub junk_half : Trace → ℕ
  pub parse : Bytes → List ParserCall
  pub bufsiz : ℕ
  pub sizeof_utmpx : ℕ
  pub path_wtmp : Bytes
  pub ctime : ℤ → Bytes
