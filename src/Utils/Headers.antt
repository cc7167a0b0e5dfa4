-- ===== src/Utils/Headers.antt =====
-- The response headers of utils.c as a client reads them.
use imonitor.Base.{
  ℕ, zero, suc, ◌+◌, ◌*◌, ◌/◌, ◌%◌, ◌≤◌, ◌<◌, ◌≡◌, refl, ap, ◌∙◌, false, Option, none, some, [],
  ◌∷◌, ◌++◌, append_assoc, Bytes, codes, crlf, pos, arith, ◌==◌, if◌then◌else◌, length,
  length-append,
}
use mathlib.Core.Option
use imonitor.Utils.{digits_before, decimal, decimal_ℤ, header200, header200_start, header200_end}
use imonitor.Utils.Text.{
  HasNoNul, HasNoNul-append, is_digit, AllDigits, decimal-AllDigits, decimal-HasNoNul, number_from,
  number_from-decimal,
}

-- The text behind a given start.
abbrev pub strip : Bytes → Bytes → Option Bytes
strip [] text = some text
strip (a ∷ start) [] = none
strip (a ∷ start) (b ∷ bs) = if a == b then strip start bs else none

-- The text behind the first line.
abbrev pub after_line : Bytes → Bytes
after_line [] = []
after_line (b ∷ bs) = if b == 10 then bs else after_line bs

abbrev pub leading_digits : Bytes → Bytes
leading_digits [] = []
leading_digits (b ∷ bs) = if is_digit b then b ∷ leading_digits bs else []

-- The length that a response announces in the line behind its status line.
unfoldable pub announced : Bytes → Option ℕ
unfolding number_from
announced text =
    Option.map (λ rest. number_from 0 (leading_digits rest))
      (strip (codes "Content-Length: ") (after_line text))

-- What stands behind the first empty line of a response.
unfoldable pub body_of : Bytes → Option Bytes
body_of [] = none
body_of (b ∷ bs) = elim (strip (crlf ++ crlf) (b ∷ bs)) [
  | some rest ↦ some rest
  | none ↦ body_of bs
]

leading_digits-append :
    (ds : Bytes) (b : ℕ) (rest : Bytes)
    → AllDigits ds
    → is_digit b ≡ false
    → leading_digits (ds ++ b ∷ rest) ≡ ds
leading_digits-append [] b rest h e = rw e
leading_digits-append (d ∷ ds) b rest h e = rw (h.0, leading_digits-append ds b rest h.1 e)

-- A response with the 200 header announces the number that the header was made for.
pub announced-header200 : (n : ℕ) (body : Bytes) → announced (header200 (pos n) ++ body) ≡ some n
unfolding announced decimal_ℤ
announced-header200 n body =
    ap (λ text. some (number_from 0 (leading_digits text)))
      (append_assoc (decimal n) header200_end body)
    ∙ ap (λ ds. some (number_from 0 ds))
        (leading_digits-append (decimal n) 13 _ (decimal-AllDigits n) refl)
    ∙ ap some (number_from-decimal n)

body_of-digits : (ds rest : Bytes) → AllDigits ds → body_of (ds ++ rest) ≡ body_of rest
unfolding body_of
body_of-digits [] rest h = refl
body_of-digits (d ∷ ds) rest h = ground (arith, body_of-digits ds rest h.1)

-- Behind the first empty line of a response with the 200 header stands the body, whatever it is.
pub body_of-header200 : (n : ℕ) (body : Bytes) → body_of (header200 (pos n) ++ body) ≡ some body
unfolding body_of decimal_ℤ
body_of-header200 n body =
    ap body_of (append_assoc (decimal n) header200_end body)
    ∙ body_of-digits (decimal n) (header200_end ++ body) (decimal-AllDigits n)

pub header200-HasNoNul : (n : ℕ) → HasNoNul (header200 (pos n))
unfolding decimal_ℤ
header200-HasNoNul n =
    HasNoNul-append header200_start (decimal n ++ header200_end) (omega arith)
      (HasNoNul-append (decimal n) header200_end (decimal-HasNoNul n) (omega arith))

-- 10 to the power `k`.
abbrev pub tens : ℕ → ℕ
tens zero = 1
tens (suc k) = 10 * tens k

length-digits_before :
    (k fuel n : ℕ) (rest : Bytes)
    → n < tens (suc k)
    → length (digits_before fuel n rest) ≤ suc k + length rest
unfolding digits_before
length-digits_before k zero n rest h = omega arith
length-digits_before zero (suc fuel) n rest h = ground arith
length-digits_before (suc k) (suc fuel) n rest h =
    ground (arith, length-digits_before k fuel (n / 10) ((48 + n % 10) ∷ rest))

-- A number below 10 to the power `k + 1` has `k + 1` digits at most.
pub length-decimal_below : (k n : ℕ) → n < tens (suc k) → length (decimal n) ≤ suc k
unfolding decimal
length-decimal_below k n h = omega (arith, length-digits_before k (suc n) n [] h)

-- The absolute value of an `int` has ten digits at most.
pub length-decimal : (n : ℕ) → n ≤ 0x8000_0000 → length (decimal n) ≤ 10
length-decimal n h = length-decimal_below 9 n (omega arith)

-- With its NUL the 200 header takes 109 bytes at most.
pub length-header200 : (n : ℕ) → n < 0x8000_0000 → length (header200 (pos n)) < 109
unfolding decimal_ℤ
length-header200 n h = omega (
  arith,
  length-append header200_start (decimal n ++ header200_end),
  length-append (decimal n) header200_end,
  length-decimal n (omega arith),
)
