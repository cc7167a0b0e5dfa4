-- ===== src/Tests/Crowd.antt =====
-- A system for two clients: the second connects while the first is answered.
use imonitor.Base.{
  refl, some, [], ◌∷◌, Bytes, codes, pos, negsuc, arith, leb, if◌then◌else◌, length-take, drop,
}
use imonitor.Sys.{
  Env, Trace, Call, Reply, recv, url, read, user_process, accept, eventfd, io_setup,
  malloc_connection,
}
use imonitor.SockUtil.{peer_text}
use imonitor.Logfile.Columns.{IsEntry}
use imonitor.Transfer.Defs.{Honest}
use imonitor.Transfer.Start.{Stored}
use imonitor.Safety.Frame.{alive}
use imonitor.Safety.System.{System}
use imonitor.Safety.Registered.{allocated}
use imonitor.Safety.NewWatch.{MallocFresh}
use imonitor.Aio.{submitted}
use imonitor.Tests.{result_of-asked, small_env, answers, plain}
use imonitor.Tests.Requests.{request}
use imonitor.Tests.Logs.{login}

abbrev pub text : Bytes
text = codes "hello"

-- A new client comes as the socket 10, at the address 1 and with the context 3; operations are
-- reported by the eventfd 8.
abbrev crowd_reply : Trace → Call → Reply
crowd_reply t (recv fd room) =
    if leb 20 room then plain (pos 19) request 0 else plain (negsuc 0) [] 0
crowd_reply t (accept fd) = plain (pos 10) [] 0
crowd_reply t eventfd = plain (pos 8) [] 0
crowd_reply t io_setup = if alive 3 t then plain (negsuc 0) [] 0 else plain (pos 0) [] 3
crowd_reply t malloc_connection = plain (pos 0) [] (if allocated 1 t then 0 else 1)
crowd_reply t (read fd count) = record (plain (pos 384) [] 0) { entry = some (login user_process) }
crowd_reply t c = answers (pos 0) 5 text t c

abbrev pub crowd_env : Env
crowd_env = record (small_env (pos 0) 5 text) {
  reply = crowd_reply;
  parse = λ whole. url (codes "/a") ∷ [];
  bufsiz = 512;
}

pub crowd_env-Honest : Honest crowd_env (pos 9) text
crowd_env-Honest = record {
  ctl_ok = λ t ep op fd ev. refl;
  submit_ok = λ t ctx b. refl;
  malloc_ok = λ t. refl;
  getevents_ok = λ t ctx. refl;
  read_bytes = λ t ctx buf count offset h. rw h;
  read_res = λ t ctx buf count offset h. rw h;
  write_res = λ t ctx fd text count offset h. rw h;
}

pub crowd_env-Stored : Stored crowd_env (codes "a") (pos 9) text
crowd_env-Stored = record {
  found = λ t. refl;
  opens = λ t. refl;
  valid = refl;
  ends = λ t. refl;
  rewinds = λ t. refl;
}

login-IsEntry : IsEntry crowd_env (login user_process)
login-IsEntry = record {
  user = (omega arith, omega arith);
  line = omega arith;
  id = (omega arith, omega arith);
  host = (omega arith, omega arith);
  pid = omega arith;
  time = ground arith;
}

pub crowd_env-System : System crowd_env
unfolding peer_text alive
crowd_env-System = record {
  large = omega arith;
  int_sized = omega arith;
  network = record { counted = λ t fd room n h. ground arith; first = λ t fd n h. ground arith };
  short = λ t fd room n h. ground arith;
  peer_address = λ t fd. record { string = tt; digits = omega arith; port = omega arith };
  read_fits =
      λ t ctx fd buf count offset h. rw h (omega (arith, length-take count (drop offset text)));
  result_fits = λ t ctx. result_of-asked text (submitted ctx t);
  fresh_context = λ t h. ground arith;
  parsed = λ whole. (ground arith, tt);
  read_entry = λ t fd count. login-IsEntry;
}

pub crowd_env-MallocFresh : MallocFresh crowd_env
crowd_env-MallocFresh t h = ground arith
