-- ===== src/Logfile.antt =====
-- The collecting half of imonitor.c: `write_log`, `create_logfile` and `file_exists`.
pub mod Change
pub mod Columns
pub mod Entries
pub mod Line
pub mod Overrun
use imonitor.Base.{
  ℕ, zero, suc, ◌-◌, Bool, true, false, not, Option, none, some, [], ◌∷◌, ◌++◌, Bytes, codes,
  negsuc, is_neg, ◌==ℤ◌, if◌then◌else◌, length, take, drop, replicate,
}
use mathlib.Core.Option
use imonitor.Sys.{
  Env, M, Utmpx, UtType, empty, run_lvl, boot_time, new_time, old_time, init_process, login_process,
  user_process, dead_process, unknown, pure, ◌>>=◌, ◌>>◌, starved, die, defined, get, modify, sys,
  c_string, c_string_n, sprintf, write, open_file, o_rdwr, o_creat, utmpxname, setutxent, getutxent,
  endutxent, access,
}
use imonitor.Utils.{decimal_ℤ}

-- `%-*s` and `%*s`: at least `width` bytes, filled up with spaces.
unfoldable pub pad_right : ℕ → Bytes → Bytes
pad_right width s = s ++ replicate (width - length s) b' '

unfoldable pub pad_left : ℕ → Bytes → Bytes
pad_left width s = replicate (width - length s) b' ' ++ s

-- The test at the head of `write_log`.
unfoldable pub is_logged : UtType → Bool
is_logged user_process = true
is_logged login_process = true
is_logged dead_process = true
is_logged run_lvl = true
is_logged _ = false

unfoldable pub type_name : UtType → Bytes
type_name empty = codes "EMPTY"
type_name run_lvl = codes "RUN_LVL"
type_name boot_time = codes "BOOT_TIME"
type_name new_time = codes "NEW_TIME"
type_name old_time = codes "OLD_TIME"
type_name init_process = codes "INIT_PR"
type_name login_process = codes "LOGIN_PR"
type_name user_process = codes "USER_PR"
type_name dead_process = codes "DEAD_PR"
type_name unknown = codes "???"

-- The four formats: "%-8s ", "%-9.9s ", "%5ld %-6.6s %-3.5s %-20s " and "%s\n"; `none` is a read past
-- the end of an array.
unfoldable pub user_column : Utmpx → Option Bytes
unfolding pad_right
user_column ut = Option.map (λ user. pad_right 8 user ++ codes " ") (c_string ut.ut_user)

unfoldable pub type_column : Utmpx → Bytes
unfolding pad_right type_name
type_column ut = pad_right 9 (take 9 (type_name ut.ut_type)) ++ codes " "

unfoldable pub place_columns : Utmpx → Option Bytes
unfolding pad_right pad_left decimal_ℤ Option.bind
place_columns ut = Option.bind (c_string_n 6 ut.ut_line) λ line.
    Option.bind (c_string_n 5 ut.ut_id) λ id.
      Option.map
        (λ host.
          pad_left 5 (decimal_ℤ ut.ut_pid)
          ++ codes " "
          ++ pad_right 6 line
          ++ codes " "
          ++ pad_right 3 id
          ++ codes " "
          ++ pad_right 20 host
          ++ codes " ")
        (c_string ut.ut_host)

-- `./auth.log`
abbrev pub auth_log_path : Bytes
auth_log_path = codes "./auth.log"

module _ (env : Env) where
  unfoldable pub time_column : Utmpx → Bytes
  time_column ut = env.ctime ut.tv_sec ++ 10 ∷ []

  -- One column: `sprintf` into the cleared `format_buf`, and a `write` of its string.
  unfoldable pub log_text : Bytes → M (Unit {0})
  log_text text = do
    a ← defined (sprintf (replicate env.bufsiz 0) text)
    line ← defined (c_string a)
    s ← get
    r ← sys env (write s.logfd line)
    die (is_neg r.rc)

  unfoldable pub write_log : Utmpx → M (Unit {0})
  unfolding is_logged user_column type_column place_columns time_column log_text
  write_log ut =
      if is_logged ut.ut_type
      then (do
        user ← defined (user_column ut)
        log_text user
        log_text (type_column ut)
        place ← defined (place_columns ut)
        log_text place
        log_text (time_column ut))
      else pure tt

  -- `while ((ut = getutxent()) != NULL) write_log(ut);`
  unfoldable pub log_entries : (fuel : ℕ) → M (Unit {0})
  unfolding write_log
  log_entries zero = λ s. starved s
  log_entries (suc fuel) =
      let rest = log_entries fuel in
      do r ← sys env getutxent; elim r.entry [ none ↦ pure tt | some ut ↦ write_log ut >> rest ]

  unfoldable pub create_logfile : (fuel : ℕ) → M (Unit {0})
  unfolding log_entries
  create_logfile fuel = do
    r ← sys env (open_file auth_log_path (o_rdwr ∷ o_creat ∷ []))
    modify (λ s. record s { logfd = r.rc })
    die (is_neg r.rc)
    sys env (utmpxname env.path_wtmp) >> sys env setutxent
    log_entries fuel
    sys env endutxent >> pure tt

  -- `access(buffer + 1, F_OK) != -1`, on the string constant that it is given.
  unfoldable pub file_exists : Bytes → M Bool
  file_exists buffer = do
    path ← defined (c_string (drop 1 (buffer ++ 0 ∷ [])))
    r ← sys env (access path)
    pure (not (r.rc ==ℤ negsuc 0))
