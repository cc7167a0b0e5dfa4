-- ===== src/Tests.antt =====
-- Runs of the server at concrete inputs: a system that holds one file, and a request for it.
pub mod Answers
pub mod Clients
pub mod Crowd
pub mod Events
pub mod Journal
pub mod Logs
pub mod Nodes
pub mod Overruns
pub mod Requests
pub mod Safety
pub mod Shop
pub mod Together
pub mod Visits
use imonitor.Base.{
  ℕ, true, false, Option, none, some, [], ◌∷◌, ◌++◌, Bytes, codes, ℤ, pos, negsuc, length, take,
  drop, replicate, refl, ◌≡◌, ◌≤◌, arith, length-take,
}
use imonitor.Sys.{
  Env, Server, Connection, Trace, Call, Reply, IoOp, pread, pwrite, Whence, seek_set, seek_end,
  malloc_connection, malloc_event, io_getevents, access, open_file, lseek, update,
  state_data_received,
}
use imonitor.Aio.{submitted}
use imonitor.WEpoll.{epollin}
use imonitor.Safety.System.{asked}

abbrev pub plain : ℤ → Bytes → ℕ → Reply
plain rc bytes word = record { rc = rc; bytes = bytes; word = word; mask = epollin; entry = none }

-- What a finished operation has read, and its `res`.
abbrev pub read_from : Bytes → Option IoOp → Bytes
read_from content (some (pread fd buf count offset)) = take count (drop offset content)
read_from content _ = []

abbrev pub result_of : Bytes → Option IoOp → ℕ
result_of content (some (pread fd buf count offset)) = length (take count (drop offset content))
result_of content (some (pwrite fd text count offset)) = count
result_of content none = 0

pub result_of-asked : (content : Bytes) (op : Option IoOp) → result_of content op ≤ asked op
result_of-asked content (some (pread fd buf count offset)) =
    omega (arith, length-take count (drop offset content))
result_of-asked content (some (pwrite fd text count offset)) = omega arith
result_of-asked content none = omega arith

abbrev pub seek_reply : ℕ → Whence → ℤ
seek_reply size seek_end = pos size
seek_reply size seek_set = pos 0

-- A system where `access` returns `found`, a file opens as 9 and has `size` bytes for `lseek`, and
-- reads yield `content`.
abbrev pub answers : (found : ℤ) (size : ℕ) (content : Bytes) → Trace → Call → Reply
answers found size content t (access path) = plain found [] 0
answers found size content t (open_file path flags) = plain (pos 9) [] 0
answers found size content t (lseek fd offset whence) = plain (seek_reply size whence) [] 0
answers found size content t (io_getevents ctx) =
    plain (pos 1) (read_from content (submitted ctx t)) (result_of content (submitted ctx t))
answers found size content t malloc_connection = plain (pos 0) [] 1
answers found size content t malloc_event = plain (pos 0) [] 1
answers found size content t c = plain (pos 0) [] 0

-- A connection that asks for the path `/a`, with `dimension` in its fresh memory.
abbrev pub asking : (dimension : ℕ) → Connection
asking dimension = record {
  sockfd = pos 7;
  recv_buffer = replicate 128 0;
  recv_len = 0;
  send_buffer = replicate 128 0;
  send_len = 0;
  state = state_data_received;
  request_path = codes "/a" ++ replicate 126 0;
  eventfd = pos 0;
  file_dimension = dimension;
  ctx = 2;
  header_size = 0;
  data_size = 0;
  is_header = 0;
  read_data = 0;
  fd = pos 9;
}

abbrev pub small_env : (found : ℤ) (size : ℕ) (content : Bytes) → Env
small_env found size content = record {
  reply = answers found size content;
  junk = λ t. asking 0;
  junk_half = λ t. 0;
  parse = λ text. [];
  bufsiz = 128;
  sizeof_utmpx = 384;
  path_wtmp = codes "/var/log/wtmp";
  ctime = λ t. [];
}

-- The server with one connection, at the address 5.
abbrev pub one_connection : Connection → Server
one_connection c = record {
  listenfd = pos 4;
  epollfd = pos 3;
  inotifyfd = pos 6;
  wtmpfd = pos 1;
  logfd = pos 8;
  request_path = replicate 128 0;
  heap = update (λ _. none) 5 (some c);
  trace = [];
}
