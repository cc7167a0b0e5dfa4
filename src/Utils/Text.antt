-- ===== src/Utils/Text.antt =====
-- Texts without a NUL, and the numbers that `printf` writes.
use imonitor.Base.{
  ◌==◌, ◌≤◌, ℕ, zero, suc, ◌+◌, ◌-◌, ◌*◌, ◌/◌, ◌%◌, ◌<◌, ◌≡◌, ◌≢◌, refl, ap, ◌∙◌, Bool, true, ◌&&◌,
  some, [], ◌∷◌, ◌++◌, Bytes, arith, ltb, leb, take, if◌then◌else◌, ◌⊎◌, length, Bool-cases, inl,
  inr,
}
use mathlib.Core.Option
use imonitor.Sys.{c_string, c_string_n, strlen}
use imonitor.Utils.{digits_before, decimal}

abbrev pub HasNoNul : Bytes → Type 0
HasNoNul [] = Unit
HasNoNul (b ∷ bs) = (b ≢ 0) × HasNoNul bs

pub HasNoNul-append : (xs ys : Bytes) → HasNoNul xs → HasNoNul ys → HasNoNul (xs ++ ys)
HasNoNul-append [] ys h k = k
HasNoNul-append (x ∷ xs) ys h k = (h.0, HasNoNul-append xs ys h.1 k)

-- The string of an array that begins with a text and its NUL is the text.
pub c_string-append : (xs ys : Bytes) → HasNoNul xs → c_string (xs ++ 0 ∷ ys) ≡ some xs
c_string-append [] ys h = refl
c_string-append (x ∷ xs) ys h = ground (arith, c_string-append xs ys h.1)

-- An array with a NUL holds a string, no longer than what stands before that NUL.
pub c_string-nul :
    (xs ys : Bytes) → (s : Bytes) × ((c_string (xs ++ 0 ∷ ys) ≡ some s) × (length s ≤ length xs))
c_string-nul [] ys = ([], (refl, omega arith))
c_string-nul (x ∷ xs) ys =
    let (s, (e, h)) = c_string-nul xs ys in
    elim (Bool-cases (x == 0)) [
      | inl nul ↦ ([], (rw nul refl, omega arith))
      | inr more ↦ (x ∷ s, (rw (more, e) refl, omega (arith, h)))
    ]

pub strlen-append : (xs ys : Bytes) → HasNoNul xs → strlen (xs ++ 0 ∷ ys) ≡ some (length xs)
strlen-append xs ys h = ap (Option.map length) (c_string-append xs ys h)

-- A decimal digit.
abbrev pub is_digit : ℕ → Bool
is_digit b = leb 48 b && leb b 57

abbrev pub AllDigits : Bytes → Type 0
AllDigits [] = Unit
AllDigits (b ∷ bs) = (is_digit b ≡ true) × AllDigits bs

digit_small : (n : ℕ) → n < 10 → is_digit (48 + n) ≡ true
digit_small n h = ground arith

digits_before-AllDigits :
    (fuel n : ℕ) (rest : Bytes) → AllDigits rest → AllDigits (digits_before fuel n rest)
unfolding digits_before
digits_before-AllDigits zero n rest h = h
digits_before-AllDigits (suc fuel) n rest h = elim (Bool-cases (ltb n 10)) [
  | inl small ↦ rw small (digit_small n (ground arith), h)
  | inr large ↦
      rw large (digits_before-AllDigits fuel (n / 10) _ (digit_small (n % 10) (omega arith), h))
]

-- A number is written in digits alone.
pub decimal-AllDigits : (n : ℕ) → AllDigits (decimal n)
unfolding decimal
decimal-AllDigits n = digits_before-AllDigits (suc n) n [] tt

AllDigits-HasNoNul : (bs : Bytes) → AllDigits bs → HasNoNul bs
AllDigits-HasNoNul [] h = tt
AllDigits-HasNoNul (b ∷ bs) h = (ground arith, AllDigits-HasNoNul bs h.1)

pub decimal-HasNoNul : (n : ℕ) → HasNoNul (decimal n)
decimal-HasNoNul n = AllDigits-HasNoNul (decimal n) (decimal-AllDigits n)

-- Horner's rule: the number that digits stand for, behind the digits that gave `acc`.
unfoldable pub number_from : ℕ → Bytes → ℕ
number_from acc [] = acc
number_from acc (b ∷ bs) = number_from (acc * 10 + (b - 48)) bs

number_from-digits_before :
    (fuel n : ℕ) (rest : Bytes)
    → n < fuel
    → number_from 0 (digits_before fuel n rest) ≡ number_from n rest
unfolding digits_before number_from
number_from-digits_before zero n rest h = absurd (omega arith)
number_from-digits_before (suc fuel) n rest h = elim (Bool-cases (ltb n 10)) [
  | inl small ↦ rw small (ap (λ k. number_from k rest) (omega arith))
  | inr large ↦ rw large (
      number_from-digits_before fuel (n / 10) _ (ground arith)
      ∙ ap (λ k. number_from k rest) (omega arith))
]

-- Reading back the digits of a number gives the number.
pub number_from-decimal : (n : ℕ) → number_from 0 (decimal n) ≡ n
unfolding decimal number_from
number_from-decimal n = number_from-digits_before (suc n) n [] (omega arith)

-- The bytes before the first NUL.
abbrev pub before_nul : Bytes → Bytes
before_nul [] = []
before_nul (b ∷ bs) = if b == 0 then [] else b ∷ before_nul bs

pub before_nul-HasNoNul : (a : Bytes) → HasNoNul (before_nul a)
before_nul-HasNoNul [] = tt
before_nul-HasNoNul (b ∷ bs) = elim (Bool-cases (b == 0)) [
  | inl e ↦ rw e tt
  | inr e ↦ rw e (ground arith, before_nul-HasNoNul bs)
]

-- The string in an array with a NUL.
pub c_string-before_nul :
    (a : Bytes) → length (before_nul a) < length a → c_string a ≡ some (before_nul a)
c_string-before_nul [] h = absurd (omega arith)
c_string-before_nul (b ∷ bs) h = elim (Bool-cases (b == 0)) [
  | inl e ↦ rw e refl
  | inr e ↦ rw (e, c_string-before_nul bs (omega (arith, rw e at h))) refl
]

-- What is read of an array with a NUL, or with enough bytes.
pub c_string_n-take :
    (n : ℕ) (a : Bytes)
    → (n ≤ length a) ⊎ (length (before_nul a) < length a)
    → c_string_n n a ≡ some (take n (before_nul a))
c_string_n-take zero a h = refl
c_string_n-take (suc n) [] h = absurd (elim h [ inl k ↦ omega arith | inr k ↦ omega arith ])
c_string_n-take (suc n) (b ∷ bs) h = elim (Bool-cases (b == 0)) [
  | inl e ↦ rw e refl
  | inr e ↦
      let rest : (n ≤ length bs) ⊎ (length (before_nul bs) < length bs) = elim h [
        | inl k ↦ inl (omega arith)
        | inr k ↦ inr (omega (arith, rw e at k))
      ] in
      rw (e, c_string_n-take n bs rest) refl
]
