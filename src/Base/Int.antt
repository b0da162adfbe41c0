-- ===== src/Base/Int.antt =====
-- Signed integers over the native numbers, and C's conversion of `int` to `unsigned int`.
use arl_hierarchical_multisc.Base.Tests.{ltb, if◌then◌else◌}
use Prim.Native.Nat.{ℕ, suc, ◌+◌, ◌-◌, ◌%◌, ◌^◌, ◌<◌, ◌≤◌}
use mathlib.Core.Bool.{Bool}
use mathlib.Core.Path.{◌≡◌}
use native.Mathlib.Omega.{arith}

-- `negsuc n` is -(n + 1).
pub data ℤ : Type 0 where
  pos : ℕ → ℤ
  negsuc : ℕ → ℤ

abbrev pub pos_part : ℤ → ℕ
pos_part (pos n) = n
pos_part (negsuc n) = 0

abbrev pub neg_part : ℤ → ℕ
neg_part (pos n) = 0
neg_part (negsuc n) = suc n

abbrev pub sub_ℕ : ℕ → ℕ → ℤ
sub_ℕ a b = if ltb a b then negsuc (b - a - 1) else pos (a - b)

abbrev pub ltb_ℤ : ℤ → ℤ → Bool
ltb_ℤ a b = ltb (pos_part a + neg_part b) (pos_part b + neg_part a)

abbrev pub unsigned_mod : ℕ
unsigned_mod = 2 ^ 32

-- The value modulo 2^32.
abbrev pub to_unsigned : ℤ → ℕ
to_unsigned (pos n) = n % unsigned_mod
to_unsigned (negsuc n) = unsigned_mod - 1 - n % unsigned_mod

infixl 65 ◌-ℤ◌ ◌+ℤ◌
unfoldable pub ◌-ℤ◌ : ℤ → ℤ → ℤ
a -ℤ b = sub_ℕ (pos_part a + neg_part b) (neg_part a + pos_part b)

unfoldable pub ◌+ℤ◌ : ℤ → ℤ → ℤ
a +ℤ b = sub_ℕ (pos_part a + pos_part b) (neg_part a + neg_part b)

pub add_zero : (a : ℤ) → a ≡ a +ℤ pos 0
unfolding ◌+ℤ◌
add_zero (pos n) = ground arith
add_zero (negsuc n) = ground arith

pub pos-add : (a b : ℕ) → pos a +ℤ pos b ≡ pos (a + b)
unfolding ◌+ℤ◌
pos-add a b = ground arith

pub pos-sub : (a b : ℕ) → pos (a + b) -ℤ pos b ≡ pos a
unfolding ◌-ℤ◌
pos-sub a b = ground arith

pub sub_zero : (a : ℕ) → pos a ≡ pos a -ℤ pos 0
unfolding ◌-ℤ◌
sub_zero a = ground arith

-- Sums and differences with a difference.
pub sub-add : (a b k : ℕ) → (pos a -ℤ pos k) +ℤ pos b ≡ pos (a + b) -ℤ pos k
unfolding ◌+ℤ◌ ◌-ℤ◌
sub-add a b k = ground arith

pub sub-sub : (a b k : ℕ) → (pos (a + b) -ℤ pos k) -ℤ pos b ≡ pos a -ℤ pos k
unfolding ◌-ℤ◌
sub-sub a b k = ground arith

pub sub-both : (a k : ℕ) → pos (a + 1) -ℤ pos (1 + k) ≡ pos a -ℤ pos (0 + k)
unfolding ◌-ℤ◌
sub-both a k = ground arith

pub sub_suc-add : (a k : ℕ) → (pos a -ℤ pos (1 + k)) +ℤ pos 1 ≡ pos a -ℤ pos (0 + k)
unfolding ◌+ℤ◌ ◌-ℤ◌
sub_suc-add a k = ground arith

-- C's conversion to `int` of a value modulo 2^32, as compilers define it.
abbrev pub signed : ℕ → ℤ
signed u = if ltb u (2 ^ 31) then pos u else negsuc (unsigned_mod - 1 - u)

abbrev pub to_int : ℤ → ℤ
to_int a = signed (to_unsigned a)

-- The values of a 32-bit `int`.
abbrev pub IsInt : ℤ → Type 0
IsInt a = (pos_part a < 2 ^ 31) × (neg_part a ≤ 2 ^ 31)
