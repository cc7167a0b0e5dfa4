-- ===== src/Sys/CString.antt =====
-- Strings in `char` arrays: `none` is a read or a write past the end of the array.
use Prim.Native.Nat.add
use imonitor.Base.{
  zero, suc, ◌<◌, ap, append_assoc, ◌∙◌, ◌≡◌, ◌≤◌, arith, length-append, length-take, length-drop,
  ℕ, ◌+◌, Option, none, some, [], ◌∷◌, ◌++◌, Bytes, ◌==◌, leb, if◌then◌else◌, length, take, drop,
}
use mathlib.Core.Option

-- The string at the start of an array.
abbrev pub c_string : Bytes → Option Bytes
c_string [] = none
c_string (b ∷ bs) = if b == 0 then some [] else Option.map (λ s. b ∷ s) (c_string bs)

-- What `%.*s` prints of an array: it reads `n` bytes at most, and none behind a NUL.
abbrev pub c_string_n : ℕ → Bytes → Option Bytes
c_string_n zero a = some []
c_string_n (suc n) [] = none
c_string_n (suc n) (b ∷ bs) = if b == 0 then some [] else Option.map (λ s. b ∷ s) (c_string_n n bs)

-- `strlen`
abbrev pub strlen : Bytes → Option ℕ
strlen a = Option.map length (c_string a)

-- `memcpy(dst + at, src, length src)`
unfoldable pub memcpy_at : Bytes → ℕ → Bytes → Option Bytes
memcpy_at dst at src =
    if leb (at + length src) (length dst)
    then some (take at dst ++ src ++ drop (at + length src) dst)
    else none

-- `memcpy(dst, src, length src)`
unfoldable pub memcpy : Bytes → Bytes → Option Bytes
unfolding memcpy_at
memcpy dst src = memcpy_at dst 0 src

-- `strcpy(dst, src)`
unfoldable pub strcpy : Bytes → Bytes → Option Bytes
unfolding memcpy Option.bind
strcpy dst src = Option.bind (c_string src) (λ s. memcpy dst (s ++ 0 ∷ []))

-- `sprintf(dst, ...)`, given the text that the format yields.
unfoldable pub sprintf : Bytes → Bytes → Option Bytes
unfolding memcpy
sprintf dst text = memcpy dst (text ++ 0 ∷ [])

pub memcpy_at_lem :
    (dst : Bytes) (at : ℕ) (src : Bytes)
    → at + length src ≤ length dst
    → memcpy_at dst at src ≡ some (take at dst ++ src ++ drop (at + length src) dst)
unfolding memcpy_at
memcpy_at_lem dst at src h = ground arith

-- A copy that fits replaces the first bytes.
pub memcpy_lem :
    (dst src : Bytes)
    → length src ≤ length dst
    → memcpy dst src ≡ some (src ++ drop (length src) dst)
unfolding memcpy
memcpy_lem dst src h = ground (arith, add.zero (length src))

-- A copy that is defined fits, and yields the array with the bytes in place.
pub memcpy_at-fits :
    (dst : Bytes) (at : ℕ) (src : Bytes) {a : Bytes}
    → memcpy_at dst at src ≡ some a
    → (at + length src ≤ length dst) × (take at dst ++ src ++ drop (at + length src) dst ≡ a)
unfolding memcpy_at
memcpy_at-fits dst at src h = ground arith

-- A copy never changes the length of its array.
pub length-memcpy_at :
    (dst : Bytes) (at : ℕ) (src : Bytes) {a : Bytes}
    → memcpy_at dst at src ≡ some a
    → length a ≡ length dst
length-memcpy_at dst at src h =
    let (fits, e) = memcpy_at-fits dst at src h in
    let rest = drop (at + length src) dst in
    rw (← e) (
      omega (
        arith,
        length-append (take at dst ++ src) rest,
        length-append (take at dst) src,
        length-take at dst,
        length-drop (at + length src) dst,
      ))

-- Where a text fits with its NUL, `sprintf` writes both and leaves the rest of the array.
pub sprintf_lem :
    (a text : Bytes)
    → length text < length a
    → sprintf a text ≡ some (text ++ 0 ∷ drop (suc (length text)) a)
unfolding sprintf
sprintf_lem a text h =
    let size : length (text ++ 0 ∷ []) ≡ suc (length text) =
      omega (arith, length-append text (0 ∷ [])) in
    memcpy_lem a (text ++ 0 ∷ []) (rw size h)
    ∙ ap some (append_assoc text (0 ∷ []) _ ∙ ap (λ n. text ++ 0 ∷ drop n a) size)

pub length-sprintf : (a text : Bytes) {b : Bytes} → sprintf a text ≡ some b → length b ≡ length a
unfolding sprintf memcpy
length-sprintf a text h = length-memcpy_at a 0 (text ++ 0 ∷ []) h
