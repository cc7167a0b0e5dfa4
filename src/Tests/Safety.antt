-- ===== src/Tests/Safety.antt =====
-- A system as the safety of the event handlers asks for it, and an event on it.
use imonitor.Base.{
  Option, Option-cases, Bool, true, false, not, ◌&&◌, ℕ, ℤ, none, ◌≡◌, refl, Bool-cases, inl, sym,
  ◌∙◌, some, [], ◌∷◌, ◌++◌, codes, pos, negsuc, inr, arith, leb, ◌==◌, if◌then◌else◌, length-take,
  drop, replicate, to_int, to_size, add_size,
}
use mathlib.Core.Option.{some-injective}
use imonitor.Sys.{
  EpollEvent, epoll_ctl, malloc_connection, Env, Server, Connection, Trace, Call, Reply, recv,
  accept, eventfd, io_setup, Ensures, Run, done, exit, epoll_create, socket, inotify_init,
  epoll_wait, url, die, load, defined, sprintf, memcpy, strcpy,
}
use imonitor.WEpoll.{epollout}
use imonitor.Main.Waiting.{Watched, start_waiting-Watched}
use imonitor.Aio.{submitted, complete}
use imonitor.Utils.{is_req_finished}
use imonitor.Request.{peer_line}
use imonitor.SockUtil.{peer_text}
use imonitor.Logfile.Columns.{IsEntry}
use imonitor.Main.{dispatch, zero_utmpx, start_waiting, main}
use imonitor.Safety.Frame.{alive}
use imonitor.Safety.Contained.{contained}
use imonitor.Safety.System.{System}
use imonitor.Safety.Valid.{Sound, Valid}
use imonitor.Safety.Next.{Moves, readable, ready, writable, phases, event_of}
use imonitor.Safety.DeadEnds.{dispatch-exit}
use imonitor.WEpoll.Interest.{interest}
use imonitor.Safety.Registered.{allocated, Registered}
use imonitor.Safety.BootWatch.{Kernel}
use imonitor.Safety.NewWatch.{MallocFresh}
use imonitor.Safety.Program.{Reports, Runs, main-Runs}
use imonitor.Safety.Events.{dispatch-Moves}
use imonitor.Tests.{result_of-asked, asking, small_env, answers, one_connection, plain}
use imonitor.Tests.Requests.{request}

-- No call of `epoll_ctl` so far.
abbrev is_ctl : Call → Bool
is_ctl (epoll_ctl ep op fd ev) = true
is_ctl c = false

abbrev no_epoll : Trace → Bool
no_epoll [] = true
no_epoll ((c, r) ∷ t) = not (is_ctl c) && no_epoll t

no_epoll-interest : (t : Trace) (ep fd : ℤ) → no_epoll t ≡ true → interest ep t fd ≡ none
no_epoll-interest [] ep fd h = refl
no_epoll-interest ((c, r) ∷ t) ep fd h = ground (arith, no_epoll-interest t ep fd)

-- The event of a registration, if there is one: the descriptors are tried in their order.
abbrev event_at : Option EpollEvent → Reply → Reply
event_at none otherwise = otherwise
event_at (some ev) otherwise = record {
  rc = pos 1;
  bytes = [];
  word = ev.payload;
  mask = ev.events;
  entry = none;
}

-- A system with one context for asynchronous operations, 3, one address for connections, 1, clients
-- at the socket 10, a request of 19 bytes that arrives wherever there is more room, and a file that
-- holds `hello`. It reports the end of an operation first, then a client, then the listening socket.
abbrev safe_reply : Trace → Call → Reply
safe_reply t (recv fd room) =
    if leb 20 room then plain (pos 19) request 0 else plain (negsuc 0) [] 0
safe_reply t io_setup = if alive 3 t then plain (negsuc 0) [] 0 else plain (pos 0) [] 3
safe_reply t epoll_create = if no_epoll t then plain (pos 3) [] 0 else plain (negsuc 0) [] 0
safe_reply t socket = plain (pos 4) [] 0
safe_reply t inotify_init = plain (pos 6) [] 0
safe_reply t (accept fd) = plain (pos 10) [] 0
safe_reply t eventfd = plain (pos 8) [] 0
safe_reply t (epoll_wait fd) =
    event_at (interest fd t (pos 8))
      (event_at (interest fd t (pos 10)) (event_at (interest fd t (pos 4)) (plain (negsuc 0) [] 0)))
safe_reply t malloc_connection = plain (pos 0) [] (if allocated 1 t then 0 else 1)
safe_reply t c = answers (pos 0) 5 (codes "hello") t c

abbrev safe_env : Env
safe_env = record (small_env (pos 0) 0 []) {
  reply = safe_reply;
  parse = λ text. url (codes "/a") ∷ [];
  bufsiz = 512;
}

empty-IsEntry : IsEntry safe_env zero_utmpx
empty-IsEntry = record {
  user = (omega arith, omega arith);
  line = omega arith;
  id = (omega arith, omega arith);
  host = (omega arith, omega arith);
  pid = omega arith;
  time = (omega arith, omega arith);
}

safe_env-System : System safe_env
unfolding peer_text alive
safe_env-System = record {
  large = omega arith;
  int_sized = omega arith;
  network = record { counted = λ t fd room n h. ground arith; first = λ t fd n h. ground arith };
  short = λ t fd room n h. ground arith;
  peer_address = λ t fd. record { string = tt; digits = omega arith; port = omega arith };
  read_fits = λ t ctx fd buf count offset h.
      rw h (omega (arith, length-take count (drop offset (codes "hello"))));
  result_fits = λ t ctx. result_of-asked (codes "hello") (submitted ctx t);
  fresh_context = λ t h. ground arith;
  parsed = λ text. ((omega arith, omega arith), tt);
  read_entry = λ t fd count. empty-IsEntry;
}

-- A connection with its request, whose context is open.
abbrev requesting : Connection
requesting = record (asking 0) {
  recv_buffer = request ++ replicate 493 0;
  send_buffer = replicate 512 0;
  request_path = codes "/a" ++ replicate 510 0;
  ctx = 3;
}

abbrev with_request : Server
with_request = record (one_connection requesting) {
  request_path = codes "/a" ++ replicate 510 0;
  trace = (io_setup, plain (pos 0) [] 3) ∷ [];
}

requesting-Sound : Sound safe_env 5 requesting with_request.trace
unfolding submitted alive
requesting-Sound = record {
  recv_size = omega arith;
  send_size = omega arith;
  cleared = λ e. absurd (ground arith);
  named = λ e. (codes "a", refl);
  own = tt;
  open_context = refl;
}

alone : (p : ℕ) (c : Connection) → with_request.heap p ≡ some c → (p ≡ 5) × (c ≡ requesting)
alone p c h = elim (Bool-cases (p == 5)) [
  | inl e ↦ (ground arith, some-injective c requesting (sym (rw e at h)))
  | inr e ↦ absurd (ground arith)
]

with_request-Valid : Valid safe_env with_request
with_request-Valid = record {
  path_size = omega arith;
  sound = λ p c h. let (at, same) = alone p c h in rw (at, same) requesting-Sound;
  apart = λ p q c d h i e. (alone p c h).0 ∙ sym (alone q d i).0;
}

dispatch-Moves_example :
    Ensures
      (λ _ s'. Valid safe_env s' × Moves (ready 5 writable) (phases with_request) (phases s'))
      (dispatch safe_env (record (plain (pos 1) [] 5) { mask = epollout }) with_request)
unfolding event_of
dispatch-Moves_example =
    dispatch-Moves safe_env safe_env-System with_request with_request-Valid
      (record (plain (pos 1) [] 5) { mask = epollout }) (inr (inr (requesting, refl)))

-- More input behind the request.
dispatch-exit_example :
    (s' : Server) × (dispatch safe_env (plain (pos 1) [] 5) with_request ≡ exit s')
unfolding event_of
dispatch-exit_example =
    dispatch-exit safe_env safe_env-System with_request with_request-Valid (plain (pos 1) [] 5) 5
      readable requesting (inr (inr (requesting, refl))) refl refl refl

abbrev idle : Server
idle = record with_request { heap = λ _. none; trace = [] }

safe_env-Kernel : Kernel safe_env
safe_env-Kernel = record {
  small_inotify = λ t. omega arith;
  small_socket = λ t. omega arith;
  new_instance = λ t fd h. elim (Bool-cases (no_epoll t)) [
    | inl none_yet ↦ rw none_yet (no_epoll-interest t (pos 3) fd none_yet)
    | inr used ↦ absurd (ground arith)
  ];
}

safe_env-MallocFresh : MallocFresh safe_env
safe_env-MallocFresh t h = ground arith

safe_env-Reports : Reports safe_env
safe_env-Reports t ep h = elim (Option-cases (interest ep t (pos 8))) [
  | inr (ev, e) ↦ (pos 8, (ev, (e, rw e (refl, λ out. out))))
  | inl no_event ↦ elim (Option-cases (interest ep t (pos 10))) [
    | inr (ev, e) ↦ (pos 10, (ev, (e, rw (no_event, e) (refl, λ out. out))))
    | inl no_client ↦ elim (Option-cases (interest ep t (pos 4))) [
      | inr (ev, e) ↦ (pos 4, (ev, (e, rw (no_event, no_client, e) (refl, λ out. out))))
      | inl nothing ↦ absurd (ground arith)
    ]
  ]
]

-- A client connects, sends its request and gets the file, and the next client connects: all rounds
-- return.
main-Runs_example :
    Ensures
      (λ _ s'.
        (Valid safe_env s' × Registered s')
        × (Runs (phases idle) (phases s') × (contained s'.trace ≡ true)))
      (main safe_env 1 10 idle)
unfolding contained
main-Runs_example =
    main-Runs safe_env safe_env-System safe_env-Kernel safe_env-MallocFresh safe_env-Reports []
      (λ t. refl) tt 1 10 (omega arith) idle
      record { no_connection = λ p. refl; path_size = omega arith; no_write = refl }

start_waiting-Watched_example :
    Ensures (λ _ s'. Watched s' s'.inotifyfd × Watched s' s'.listenfd) (start_waiting safe_env idle)
start_waiting-Watched_example =
    start_waiting-Watched safe_env idle (λ t. omega arith) (λ t. omega arith) (λ t u. ground arith)

-- Where the run of the witness ends.
abbrev ends : Run (Unit {0}) → Bool
ends (done a s) = true
ends _ = false

main_ends : ends (main safe_env 1 10 idle) ≡ true
unfolding main die load defined alive allocated submitted sprintf memcpy strcpy to_int to_size
    add_size is_req_finished peer_line complete
main_ends = refl
