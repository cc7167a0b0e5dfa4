-- ===== src/Tests/Shop.antt =====
-- A system with two files, where several clients can be answered at the same time.
use imonitor.Base.{
  ◌≡◌, ◌==◌, ◌==ℤ◌, is_neg, refl, false, Option, some, [], ◌∷◌, Bytes, codes, ℤ, pos, negsuc, arith,
  leb, if◌then◌else◌, length, length-take, drop,
}
use imonitor.Sys.{
  Env, Trace, Call, Reply, IoOp, pread, recv, url, io_setup, open_file, lseek, io_getevents,
}
use imonitor.SockUtil.{peer_text}
use imonitor.Aio.{submitted}
use imonitor.Logfile.Columns.{IsEntry}
use imonitor.Main.{zero_utmpx}
use imonitor.Transfer.Defs.{Honest}
use imonitor.Transfer.Start.{Stored}
use imonitor.Safety.Frame.{alive}
use imonitor.Safety.System.{System}
use imonitor.Tests.{small_env, answers, plain, read_from, result_of, result_of-asked, seek_reply}
use imonitor.Tests.Requests.{request}

-- The file `b` opens as 8 and any other as 9.
abbrev pub content_of : ℤ → Bytes
content_of fd = if fd ==ℤ pos 8 then codes "bye" else codes "hello"

abbrev pub file_of : Bytes → ℤ
file_of [] = pos 9
file_of (b ∷ path) = if b == 98 then pos 8 else pos 9

abbrev read_content : Option IoOp → Bytes
read_content (some (pread fd buf count offset)) = content_of fd
read_content _ = []

abbrev shop_reply : Trace → Call → Reply
shop_reply t (recv fd room) =
    if leb 20 room then plain (pos 19) request 0 else plain (negsuc 0) [] 0
shop_reply t io_setup = if alive 4 t then plain (negsuc 0) [] 0 else plain (pos 0) [] 4
shop_reply t (open_file path flags) = plain (file_of path) [] 0
shop_reply t (lseek fd offset whence) = plain (seek_reply (length (content_of fd)) whence) [] 0
shop_reply t (io_getevents ctx) =
    let op = submitted ctx t in
    plain (pos 1) (read_from (read_content op) op) (result_of (read_content op) op)
shop_reply t c = answers (pos 0) 5 [] t c

abbrev pub shop_env : Env
shop_env = record (small_env (pos 0) 5 []) {
  reply = shop_reply;
  parse = λ whole. url (codes "/a") ∷ [];
  bufsiz = 512;
}

pub shop_env-Honest : (fd : ℤ) → Honest shop_env fd (content_of fd)
shop_env-Honest fd = record {
  ctl_ok = λ t ep op fd ev. refl;
  submit_ok = λ t ctx b. refl;
  malloc_ok = λ t. refl;
  getevents_ok = λ t ctx. refl;
  read_bytes = λ t ctx buf count offset h. rw h;
  read_res = λ t ctx buf count offset h. rw h;
  write_res = λ t ctx fd text count offset h. rw h;
}

pub shop_env-Stored :
    (path : Bytes)
    → is_neg (file_of path) ≡ false
    → Stored shop_env path (file_of path) (content_of (file_of path))
shop_env-Stored path valid = record {
  found = λ t. refl;
  opens = λ t. refl;
  valid = valid;
  ends = λ t. refl;
  rewinds = λ t. refl;
}

nothing-IsEntry : IsEntry shop_env zero_utmpx
nothing-IsEntry = record {
  user = (omega arith, omega arith);
  line = omega arith;
  id = (omega arith, omega arith);
  host = (omega arith, omega arith);
  pid = omega arith;
  time = (omega arith, omega arith);
}

pub shop_env-System : System shop_env
unfolding peer_text alive
shop_env-System = record {
  large = omega arith;
  int_sized = omega arith;
  network = record { counted = λ t fd room n h. ground arith; first = λ t fd n h. ground arith };
  short = λ t fd room n h. ground arith;
  peer_address = λ t fd. record { string = tt; digits = omega arith; port = omega arith };
  read_fits = λ t ctx fd buf count offset h.
      rw h (omega (arith, length-take count (drop offset (content_of fd))));
  result_fits = λ t ctx. result_of-asked (read_content (submitted ctx t)) (submitted ctx t);
  fresh_context = λ t h. ground arith;
  parsed = λ whole. ((omega arith, omega arith), tt);
  read_entry = λ t fd count. nothing-IsEntry;
}
