-- ===== src/Base/Int.antt =====
-- Signed integers over the native numbers, and the C conversions to and from them.
use Prim.Native.Nat.{ℕ, ◌+◌, ◌-◌, ◌%◌, ◌^◌, ◌<◌}
use mathlib.Core.Path.{◌≡◌}
use mathlib.Core.Logic.{◌↔◌}
use mathlib.Core.Bool.{Bool, true, false}
use native.Mathlib.Omega.{arith}
use imonitor.Base.Tests.{ltb, ◌==◌, if◌then◌else◌}

-- `negsuc n` is -(n + 1).
pub data ℤ : Type 0 where
  pos : ℕ → ℤ
  negsuc : ℕ → ℤ

-- `n < 0`
abbrev pub is_neg : ℤ → Bool
is_neg (pos n) = false
is_neg (negsuc n) = true

-- The number, if it is not negative.
abbrev pub pos_part : ℤ → ℕ
pos_part (pos n) = n
pos_part (negsuc n) = 0

infix 50 ◌==ℤ◌
abbrev pub ◌==ℤ◌ : ℤ → ℤ → Bool
pos a ==ℤ pos b = a == b
negsuc a ==ℤ negsuc b = a == b
pos a ==ℤ negsuc b = false
negsuc a ==ℤ pos b = false

pub ==ℤ_iff : (a b : ℤ) → ((a ==ℤ b) ≡ true) ↔ (a ≡ b)
==ℤ_iff (pos a) (pos b) = ground arith
==ℤ_iff (pos a) (negsuc b) = ground arith
==ℤ_iff (negsuc a) (pos b) = ground arith
==ℤ_iff (negsuc a) (negsuc b) = ground arith

-- The low `w` bits of a two's complement number.
abbrev pub bits : ℕ → ℤ → ℕ
bits w (pos n) = n % 2 ^ w
bits w (negsuc n) = 2 ^ w - 1 - n % 2 ^ w

-- The 32-bit signed number that a bit pattern stands for.
abbrev pub int_of_bits : ℕ → ℤ
int_of_bits m = if ltb m 0x8000_0000 then pos m else negsuc (0xffff_ffff - m)

-- Conversion to `int`.
unfoldable pub to_int : ℤ → ℤ
to_int n = int_of_bits (bits 32 n)

-- Conversion to `size_t`.
unfoldable pub to_size : ℤ → ℕ
to_size n = bits 64 n

-- Addition on `size_t`.
unfoldable pub add_size : ℕ → ℕ → ℕ
add_size a b = (a + b) % 0x1_0000_0000_0000_0000

-- The values of an `int`.
abbrev pub IsInt : ℤ → Type 0
IsInt (pos n) = n < 0x8000_0000
IsInt (negsuc n) = n < 0x8000_0000

-- Conversion to `int` leaves an `int` alone.
pub to_int_self : (n : ℤ) → IsInt n → to_int n ≡ n
unfolding to_int
to_int_self (pos n) h = ground arith
to_int_self (negsuc n) h = ground arith
