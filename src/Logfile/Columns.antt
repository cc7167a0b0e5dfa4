-- ===== src/Logfile/Columns.antt =====
-- The columns of a log line: what they are read from, texts without a NUL, and their lengths.
use imonitor.Base.{
  ℕ, zero, suc, ◌+◌, ◌-◌, ◌≤◌, ◌<◌, ◌≡◌, refl, inl, inr, some, [], ◌∷◌, ◌++◌, Bytes, codes, ℤ, pos,
  negsuc, arith, IsInt, length, take, replicate, length-append, length-replicate, length-take,
}
use mathlib.Core.Option
use imonitor.Sys.{
  Env, Utmpx, UtType, empty, run_lvl, boot_time, new_time, old_time, init_process, login_process,
  user_process, dead_process, unknown,
}
use imonitor.Utils.{decimal_ℤ}
use imonitor.Utils.Text.{
  before_nul, before_nul-HasNoNul, c_string-before_nul, c_string_n-take, HasNoNul, HasNoNul-append,
  decimal-HasNoNul,
}
use imonitor.Utils.Headers.{length-decimal}
use imonitor.Logfile.{
  pad_right, pad_left, type_name, user_column, type_column, place_columns, time_column,
}

-- A string of `size` bytes at most.
abbrev pub Fits : ℕ → Bytes → Type 0
Fits size text = HasNoNul text × (length text ≤ size)

-- An array of `size` bytes with a NUL in it.
abbrev pub Terminated : ℕ → Bytes → Type 0
Terminated size a = (length a ≡ size) × (length (before_nul a) < size)

-- An entry of the login database: the arrays of `struct utmpx` have their sizes, those that the formats
-- read to the end have a NUL, and the time fits in what `ctime` may write.
pub record IsEntry (env : Env) (ut : Utmpx) : Type 0 where
  pub user : Terminated 32 ut.ut_user
  pub line : length ut.ut_line ≡ 32
  pub id : Terminated 4 ut.ut_id
  pub host : Terminated 256 ut.ut_host
  pub pid : IsInt ut.ut_pid
  pub time : Fits 26 (env.ctime ut.tv_sec)

Terminated-Fits : {m : ℕ} (a : Bytes) → Terminated (suc m) a → Fits m (before_nul a)
Terminated-Fits a h = (before_nul-HasNoNul a, omega (arith, h.1))

Fits-append : (m n : ℕ) (xs ys : Bytes) → Fits m xs → Fits n ys → Fits (m + n) (xs ++ ys)
Fits-append m n xs ys h k =
    (HasNoNul-append xs ys h.0 k.0, omega (arith, length-append xs ys, h.1, k.1))

spaces-HasNoNul : (n : ℕ) → HasNoNul (replicate n b' ')
spaces-HasNoNul zero = tt
spaces-HasNoNul (suc n) = (omega arith, spaces-HasNoNul n)

take-HasNoNul : (n : ℕ) (text : Bytes) → HasNoNul text → HasNoNul (take n text)
take-HasNoNul zero text h = tt
take-HasNoNul (suc n) [] h = tt
take-HasNoNul (suc n) (b ∷ bs) h = (h.0, take-HasNoNul n bs h.1)

Fits-take : {m : ℕ} (n : ℕ) (text : Bytes) → Fits m text → Fits n (take n text)
Fits-take n text h = (take-HasNoNul n text h.0, omega (arith, length-take n text))

Fits-pad_right : {n : ℕ} (width : ℕ) (s : Bytes) → width ≤ n → Fits n s → Fits n (pad_right width s)
unfolding pad_right
Fits-pad_right width s h k = (
  HasNoNul-append s (replicate (width - length s) b' ') k.0 (spaces-HasNoNul _),
  omega (
    arith,
    length-append s (replicate (width - length s) b' '),
    length-replicate {A = ℕ} (width - length s) b' ',
    k.1,
  ),
)

Fits-pad_left : {n : ℕ} (width : ℕ) (s : Bytes) → width ≤ n → Fits n s → Fits n (pad_left width s)
unfolding pad_left
Fits-pad_left width s h k = (
  HasNoNul-append (replicate (width - length s) b' ') s (spaces-HasNoNul _) k.0,
  omega (
    arith,
    length-append (replicate (width - length s) b' ') s,
    length-replicate {A = ℕ} (width - length s) b' ',
    k.1,
  ),
)

Fits-wider : {m : ℕ} (text : Bytes) → Fits m text → Fits (suc m) text
Fits-wider text h = (h.0, omega (arith, h.1))

space-Fits : Fits 1 (codes " ")
space-Fits = ((omega arith, tt), omega arith)

decimal_ℤ-Fits : (n : ℤ) → IsInt n → Fits 12 (decimal_ℤ n)
unfolding decimal_ℤ
decimal_ℤ-Fits (pos n) h = (decimal-HasNoNul n, omega (arith, length-decimal n (omega arith)))
decimal_ℤ-Fits (negsuc n) h =
    ((omega arith, decimal-HasNoNul (suc n)), omega (arith, length-decimal (suc n) (omega arith)))

-- The text of the user column.
abbrev pub user_text : Utmpx → Bytes
user_text ut = pad_right 8 (before_nul ut.ut_user) ++ codes " "

pub user_column-text :
    (ut : Utmpx)
    → Terminated 32 ut.ut_user
    → (user_column ut ≡ some (user_text ut)) × Fits 33 (user_text ut)
unfolding user_column
user_column-text ut user = (
  rw (c_string-before_nul ut.ut_user (omega (arith, user.0, user.1))) refl,
  (Fits-append 32 1 _ (codes " ")
      (Fits-pad_right 8 _ (omega arith) (Fits-wider _ (Terminated-Fits {m = 31} _ user)))
      space-Fits),
)

type_name-Fits : (t : UtType) → Fits 9 (type_name t)
unfolding type_name
type_name-Fits empty = (omega arith, omega arith)
type_name-Fits run_lvl = (omega arith, omega arith)
type_name-Fits boot_time = (omega arith, omega arith)
type_name-Fits new_time = (omega arith, omega arith)
type_name-Fits old_time = (omega arith, omega arith)
type_name-Fits init_process = (omega arith, omega arith)
type_name-Fits login_process = (omega arith, omega arith)
type_name-Fits user_process = (omega arith, omega arith)
type_name-Fits dead_process = (omega arith, omega arith)
type_name-Fits unknown = (omega arith, omega arith)

pub type_column-Fits : (ut : Utmpx) → Fits 10 (type_column ut)
unfolding type_column
type_column-Fits ut =
    Fits-append 9 1 _ (codes " ")
      (Fits-pad_right 9 _ (omega arith) (Fits-take 9 _ (type_name-Fits ut.ut_type))) space-Fits

-- The text of the pid, the line, the id and the host.
abbrev pub place_text : Utmpx → Bytes
place_text ut =
    pad_left 5 (decimal_ℤ ut.ut_pid)
    ++ codes " "
    ++ pad_right 6 (take 6 (before_nul ut.ut_line))
    ++ codes " "
    ++ pad_right 3 (take 5 (before_nul ut.ut_id))
    ++ codes " "
    ++ pad_right 20 (before_nul ut.ut_host)
    ++ codes " "

place_text-Fits : (env : Env) (ut : Utmpx) → IsEntry env ut → Fits 283 (place_text ut)
place_text-Fits env ut h =
    let line = before_nul ut.ut_line in
    let id = before_nul ut.ut_id in
    let line_text : Fits 6 (take 6 line) =
      (take-HasNoNul 6 line (before_nul-HasNoNul ut.ut_line), omega (arith, length-take 6 line)) in
    Fits-append 282 1 _ (codes " ")
      (Fits-append 26 256 _ (pad_right 20 (before_nul ut.ut_host))
        (Fits-append 25 1 _ (codes " ")
          (Fits-append 20 5 _ (pad_right 3 (take 5 id))
            (Fits-append 19 1 _ (codes " ")
              (Fits-append 13 6 _ (pad_right 6 (take 6 line))
                (Fits-append 12 1 _ (codes " ")
                  (Fits-pad_left 5 _ (omega arith) (decimal_ℤ-Fits ut.ut_pid h.pid)) space-Fits)
                (Fits-pad_right 6 _ (omega arith) line_text))
              space-Fits)
            (Fits-pad_right 3 _ (omega arith) (Fits-take 5 id (Terminated-Fits {m = 3} _ h.id))))
          space-Fits)
        (Fits-pad_right 20 _ (omega arith) (Fits-wider _ (Terminated-Fits {m = 255} _ h.host))))
      space-Fits

pub place_columns-text :
    (env : Env) (ut : Utmpx)
    → IsEntry env ut
    → (place_columns ut ≡ some (place_text ut)) × Fits 283 (place_text ut)
unfolding place_columns Option.bind
place_columns-text env ut h = (
  rw
      (
        c_string_n-take 6 ut.ut_line (inl (omega (arith, h.line))),
        c_string_n-take 5 ut.ut_id (inr (omega (arith, h.id.0, h.id.1))),
        c_string-before_nul ut.ut_host (omega (arith, h.host.0, h.host.1)),
      )
      refl,
  place_text-Fits env ut h,
)

pub time_column-Fits : (env : Env) (ut : Utmpx) → IsEntry env ut → Fits 27 (time_column env ut)
unfolding time_column
time_column-Fits env ut h = Fits-append 26 1 _ (10 ∷ []) h.time ((omega arith, tt), omega arith)
