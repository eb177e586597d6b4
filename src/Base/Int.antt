-- ===== src/Base/Int.antt =====
-- Go's `int`, a 64-bit signed integer, over the native numbers.
use Prim.Native.Nat.{ℕ, suc, ◌+◌, ◌-◌, ◌*◌, ◌%◌, ◌^◌, ◌≤◌, ◌<◌}
use mathlib.Core.Path.{◌≡◌}
use mathlib.Core.Bool.{Bool}
use native.Mathlib.Omega.{arith}
use secunda_homework.Base.Tests.{ltb, leb, if◌then◌else◌}

-- `negsuc n` is -(n + 1).
pub data ℤ : Type 0 where
  pos : ℕ → ℤ
  negsuc : ℕ → ℤ

abbrev pub pos_part : ℤ → ℕ
pos_part (pos n) = n
pos_part (negsuc n) = 0

abbrev pub neg_part : ℤ → ℕ
neg_part (pos n) = 0
neg_part (negsuc n) = suc n

-- The integer a - b.
abbrev pub sub_ℕ : ℕ → ℕ → ℤ
sub_ℕ a b = if leb b a then pos (a - b) else negsuc (b - a - 1)

abbrev pub ltb_ℤ : ℤ → ℤ → Bool
ltb_ℤ a b = ltb (pos_part a + neg_part b) (pos_part b + neg_part a)

abbrev pub leb_ℤ : ℤ → ℤ → Bool
leb_ℤ a b = leb (pos_part a + neg_part b) (pos_part b + neg_part a)

infix 50 ◌≤ℤ◌
abbrev pub ◌≤ℤ◌ : ℤ → ℤ → Type 0
a ≤ℤ b = pos_part a + neg_part b ≤ pos_part b + neg_part a

infixl 65 ◌-ℤ◌
unfoldable pub ◌-ℤ◌ : ℤ → ℤ → ℤ
a -ℤ b = sub_ℕ (pos_part a + neg_part b) (neg_part a + pos_part b)

infixl 70 ◌*ℤ◌
unfoldable pub ◌*ℤ◌ : ℤ → ℤ → ℤ
a *ℤ b =
    sub_ℕ (pos_part a * pos_part b + neg_part a * neg_part b)
      (pos_part a * neg_part b + neg_part a * pos_part b)

-- The bit pattern of an integer, and the integer of a bit pattern: what is left of an `int` that
-- has overflowed.
abbrev pub int_mod : ℕ
int_mod = 2 ^ 64

abbrev pub int_max : ℕ
int_max = 2 ^ 63

abbrev pub bits : ℤ → ℕ
bits a = (pos_part a % int_mod + (int_mod - neg_part a % int_mod)) % int_mod

unfoldable pub wrap : ℤ → ℤ
wrap a = if ltb (bits a) int_max then pos (bits a) else negsuc (int_mod - bits a - 1)

-- An integer that fits is left as it is.
pub wrap_fits : (n : ℕ) → n < int_max → wrap (pos n) ≡ pos n
unfolding wrap
wrap_fits n h = ground arith

pub pos-sub_one : (n : ℕ) → pos (n + 1) -ℤ pos 1 ≡ pos n
unfolding ◌-ℤ◌
pos-sub_one n = ground arith

pub pos-mul : (a b : ℕ) → pos a *ℤ pos b ≡ pos (a * b)
unfolding ◌*ℤ◌
pos-mul a b = ground arith

-- A number of 64 bits beyond the largest integer becomes negative.
pub wrap_overflows : (n : ℕ) → int_max ≤ n → n < int_mod → wrap (pos n) ≡ negsuc (int_mod - n - 1)
unfolding wrap
wrap_overflows n h k = ground arith
