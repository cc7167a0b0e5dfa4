-- ===== src/Debug.antt =====
-- debug.h: `dlog` and the levels that it prints.
use Prim.Native.String.{String}
use imonitor.Base.{ℕ, Option, none, some, ◌++◌, Bytes, codes, leb, if◌then◌else◌}
use imonitor.Sys.{Env, M, pure, ◌>>◌, undefined, sys, fprintf_stderr}
use imonitor.Utils.{decimal}

pub data LogLevel : Type 0 where
  log_emerg log_alert log_crit log_err log_warning log_notice log_info log_debug : LogLevel

-- The constants of the enumeration.
abbrev pub level_number : LogLevel → ℕ
level_number log_emerg = 1
level_number log_alert = 2
level_number log_crit = 3
level_number log_err = 4
level_number log_warning = 5
level_number log_notice = 6
level_number log_info = 7
level_number log_debug = 8

-- `LOG_LEVEL`
abbrev pub log_level : LogLevel
log_level = log_info

-- The bytes of a message without arguments.
unfoldable pub message : String → Bytes
message text = codes text

-- What `dprintf` prints: the function, the file and the line, and the formatted text.
unfoldable pub dprintf_text : (function file : String) (line : ℕ) → Bytes → Bytes
unfolding decimal
dprintf_text function file line text =
    codes " ["
    ++ codes function
    ++ codes "(), "
    ++ codes file
    ++ codes ":"
    ++ decimal line
    ++ codes "] "
    ++ text

module _ (env : Env) where
  abbrev pub dprintf : (function file : String) (line : ℕ) → Bytes → M (Unit {0})
  dprintf function file line text =
      sys env (fprintf_stderr (dprintf_text function file line text)) >> pure tt

  -- `dlog(level, format, ...)`: the arguments are read only if the level is printed. `text` is the
  -- formatted text, `none` if an argument is no string.
  abbrev pub dlog : LogLevel → (function : String) (line : ℕ) → Option Bytes → M (Unit {0})
  dlog level function line text =
      if leb (level_number level) (level_number log_level)
      then elim text [ none ↦ undefined | some t ↦ dprintf function "imonitor.c" line t ]
      else pure tt
