-- ===== src/Lib.antt =====
-- imonitor: a server that logs the logins of its machine and serves files over HTTP.
--
-- The program is one process around an epoll loop (imonitor.c). A connection is a heap object whose
-- address is the payload of its epoll events. Its state says what the next event does: a new
-- connection receives a request (`receive_message`), which the HTTP parser reads; EPOLLOUT then
-- starts the header, a read from the file, or a write to the socket (`handle_work`), the last two by
-- asynchronous operations that report to an eventfd; and EPOLLIN takes their result
-- (`handle_work_done`). A change of the login database adds an entry to the log (`write_log`).
--
-- The parts, and the code they are translated from:
--   * Sys: the calls that leave the program (Sys/Calls), `struct connection`, `enum
--     connection_state` and the globals of imonitor.c (Sys/Types), commands over the server's state
--     with DIE of util.h (Sys/Machine), C strings in arrays and the conversions of printf that read
--     them (Sys/CString), and what a command promises (Sys/Outcome);
--   * WEpoll: w_epoll.h, with the interest list that epoll documents (WEpoll/Interest);
--   * SockUtil: sock_util.c, with proofs on the text of an address (SockUtil/Address);
--   * Utils: utils.c, with proofs on the headers (Utils/Headers), the numbers in them (Utils/Text)
--     and the test for the end of a request (Utils/Ends);
--   * Request: on_path_cb, settings_on_path, receive_message and connection_remove of imonitor.c,
--     with proofs on the loop (Request/Arrival, Request/Receive, Request/Segments), the path
--     (Request/Path), the error path (Request/Failure) and requests that overrun the buffer
--     (Request/Overrun);
--   * Aio: read_data and send_data; Handlers: the event handlers; Main: the start and the
--     loop, with proofs on the log file that the start looks for (Main/Looked) and on what the start
--     registers (Main/Waiting);
--   * Logfile: write_log, create_logfile and file_exists, with proofs on the columns
--     (Logfile/Columns), a line (Logfile/Line), the whole file (Logfile/Entries), a change of the
--     login database (Logfile/Change) and an id that fills its array (Logfile/Overrun);
--   * Transfer: proofs on the answer to a request, through `dispatch` of Main (Transfer/Start to
--     Transfer/Serve), on what epoll watches meanwhile (Transfer/Watch), on a new connection
--     (Transfer/Fresh), on a client's whole visit (Transfer/Session, Transfer/Visit), on a client
--     that closes early (Transfer/HangUp), on an answer among the events of other connections
--     (Transfer/Apart, Transfer/Among), and on several answers at once (Transfer/Together);
--   * Debug: dlog and dprintf of debug.h;
--   * Safety: an invariant of the connections between two events (Safety/Valid), what it asks of the
--     system (Safety/System), the protocol of a connection (Safety/Next), proofs on each handler,
--     joined in Safety/Events for an event; an invariant of what epoll watches (Safety/Registered),
--     again with proofs on each handler (the files that end in Watch or Effects), joined in
--     Safety/EventsWatch; what an event leaves of the other connections (Safety/Apart); what a run
--     of events adds to the log file (Safety/Logged); the start (Safety/Boot) and the whole program
--     (Safety/Program); and the events that end the server (Safety/DeadEnds);
--   * NodeList: list.c, which the program does not use, with proofs on well-formed lists
--     (NodeList/Chain, NodeList/Delete, NodeList/Ends);
--   * Base: names, lists, numbers and texts that the parts share; Tests: runs at concrete inputs.
--
-- A function is a command, named as in the source: from the server's state to a result and a new
-- state, to `exit` (DIE), to a fault (undefined behaviour: an access outside an array, a freed
-- connection) or to `starved`, for want of fuel. The system answers each call by a function of
-- all calls before (Env.reply), so a theorem is about every behaviour of the kernel, the network and
-- the files that its hypotheses admit. An asynchronous operation takes effect where its completion
-- is fetched; the count that it asks for stands in the trace beside the bytes of its buffer, and
-- `contained` of Safety/Contained tests that no write asks for more than those. The `char` arrays of
-- `struct utmpx` are whole arrays, with or without a NUL. Fresh memory holds any values (Env.junk).
--
-- Bounds: `int`, `size_t` and the halves of `epoll_data` wrap around at their widths. The receiving
-- loop has fuel for one round more than its buffer has bytes, the loop over the login database takes
-- its fuel as an argument; theorems say that both are enough. The main loop is endless, so a run
-- takes the number of its rounds.
--
-- Not modelled: the HTTP parser (http-parser/), whose calls of the settings are Env.parse; the text
-- that ERR (util.h) prints; dlog at LOG_DEBUG, which is above LOG_LEVEL and prints nothing; the
-- digits of addresses and times, which the C library prints.
pub mod Aio
pub mod Base
pub mod Debug
pub mod Handlers
pub mod Logfile
pub mod Main
pub mod NodeList
pub mod Request
pub mod SockUtil
pub mod Sys
pub mod Tests
pub mod Transfer
pub mod Utils
pub mod WEpoll
pub mod Safety
