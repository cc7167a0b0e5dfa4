-- ===== src/Tests/Logs.antt =====
-- The log file of a small login database.
use imonitor.Base.{
  replicate, ◌≡◌, Bytes, ℤ, negsuc, ◌==◌, if◌then◌else◌, refl, some, List, [], ◌∷◌, ◌++◌, codes,
  pos, arith, get_elem?,
}
use imonitor.Sys.{
  Env, Trace, Call, Reply, Utmpx, UtType, user_process, boot_time, getutxent, open_file, read,
  access, Returns,
}
use imonitor.Logfile.{write_log, create_logfile}
use imonitor.Logfile.Columns.{IsEntry}
use imonitor.Logfile.Line.{written, added, Writable, entries_read, Logged, write_log-added}
use imonitor.Logfile.Change.{dispatch-added}
use imonitor.Main.{dispatch, start_log}
use imonitor.Main.Looked.{start_log-lines}
use imonitor.Logfile.Entries.{log_lines, create_logfile-lines}
use imonitor.Tests.{asking, small_env, one_connection, plain}

abbrev pub login : UtType → Utmpx
login kind = record {
  ut_type = kind;
  ut_pid = pos 417;
  ut_line = codes "tty1" ++ replicate 28 0;
  ut_id = codes "1" ++ replicate 3 0;
  ut_user = codes "ana" ++ replicate 29 0;
  ut_host = codes "home" ++ replicate 252 0;
  tv_sec = pos 0;
}

abbrev logins : List Utmpx
logins = login user_process ∷ login boot_time ∷ []

-- A path that begins with a dot is there.
abbrev present : Bytes → ℤ
present [] = negsuc 0
present (b ∷ path) = if b == 46 then pos 0 else negsuc 0

abbrev log_reply : Trace → Call → Reply
log_reply t getutxent = record (plain (pos 0) [] 0) { entry = get_elem? logins (entries_read t) }
log_reply t (open_file name flags) = plain (pos 9) [] 0
log_reply t (access path) = plain (present path) [] 0
log_reply t c = plain (pos 0) [] 0

abbrev pub log_env : Env
log_env = record (small_env (pos 0) 0 []) {
  reply = log_reply;
  bufsiz = 512;
  ctime = λ t. codes "Thu Jan  1 00:00:00 1970" ++ 10 ∷ [];
}

pub log_env-Writable : Writable log_env
log_env-Writable t fd text = refl

login-IsEntry : (kind : UtType) → IsEntry log_env (login kind)
login-IsEntry kind = record {
  user = (omega arith, omega arith);
  line = omega arith;
  id = (omega arith, omega arith);
  host = (omega arith, omega arith);
  pid = omega arith;
  time = ground arith;
}

write_log-added_example :
    Returns
      (λ _ s'. Logged (added log_env (login user_process)) (one_connection (asking 0)) s')
      (write_log log_env (login user_process) (one_connection (asking 0)))
write_log-added_example =
    write_log-added log_env log_env-Writable (omega arith) (login user_process)
      (one_connection (asking 0)) (login-IsEntry user_process)

create_logfile-lines_example :
    Returns
      (λ _ s'. (s'.logfd ≡ pos 9) × (written (pos 9) s'.trace ≡ log_lines log_env logins))
      (create_logfile log_env 3 (one_connection (asking 0)))
unfolding written
create_logfile-lines_example =
    create_logfile-lines log_env log_env-Writable (omega arith) logins (λ t. refl) 3
      (one_connection (asking 0)) (login-IsEntry user_process, (login-IsEntry boot_time, tt))
      (omega arith) (λ t. refl) refl refl

start_log-lines_example :
    Returns
      (λ _ s'. (s'.logfd ≡ pos 9) × (written (pos 9) s'.trace ≡ log_lines log_env logins))
      (start_log log_env 3 (one_connection (asking 0)))
unfolding written
start_log-lines_example =
    start_log-lines log_env log_env-Writable (omega arith) logins (λ t. refl)
      (login-IsEntry user_process, (login-IsEntry boot_time, tt)) 3 (one_connection (asking 0))
      (omega arith) refl (λ t. refl) refl refl

-- The login database ends in an entry, and the descriptor 6 tells that it has changed.
abbrev change_reply : Trace → Call → Reply
change_reply t (read fd count) = record (plain (pos 384) [] 0) { entry = some (login user_process) }
change_reply t c = plain (pos 0) [] 0

abbrev change_env : Env
change_env = record log_env { reply = change_reply }

dispatch-added_example :
    Returns
      (λ _ s'. Logged (added change_env (login user_process)) (one_connection (asking 0)) s')
      (dispatch change_env (plain (pos 1) [] 6) (one_connection (asking 0)))
dispatch-added_example =
    dispatch-added change_env record { opens = λ t. refl; reads = λ t fd count. refl }
      (λ t fd line. refl) (omega arith) (one_connection (asking 0)) (plain (pos 1) [] 6)
      record { no_listener = refl; inotify = refl }
      record {
        user = (omega arith, omega arith);
        line = omega arith;
        id = (omega arith, omega arith);
        host = (omega arith, omega arith);
        pid = omega arith;
        time = ground arith;
      }
