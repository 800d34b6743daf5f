-- ===== src/Base/Int.antt =====
-- Signed 64-bit integers: whole numbers, brought back into range after each operation.
use Prim.Native.Nat.{ℕ, zero, suc, ◌+◌, ◌/◌, ◌-◌, ◌%◌, ◌≤◌, ◌<◌}
use mathlib.Core.Path.{◌≡◌}
use mathlib.Core.Bool.{Bool}
use native.Mathlib.Omega.{arith}
use fluid_data_table.Base.Tests.{ltb, leb, if◌then◌else◌}

-- `negsuc n` is -(n + 1).
pub data ℤ : Type 0 where
  pos : ℕ → ℤ
  negsuc : ℕ → ℤ

abbrev pub pos_part : ℤ → ℕ
pos_part (pos n) = n
pos_part (negsuc n) = 0

abbrev pub neg_part : ℤ → ℕ
neg_part (pos n) = 0
neg_part (negsuc n) = n + 1

-- a - b as an integer
abbrev pub sub_ℕ : ℕ → ℕ → ℤ
sub_ℕ a b = if leb b a then pos (a - b) else negsuc (b - a - 1)

infixl 65 ◌+ℤ◌ ◌-ℤ◌
unfoldable pub ◌+ℤ◌ : ℤ → ℤ → ℤ
a +ℤ b = sub_ℕ (pos_part a + pos_part b) (neg_part a + neg_part b)

unfoldable pub ◌-ℤ◌ : ℤ → ℤ → ℤ
a -ℤ b = sub_ℕ (pos_part a + neg_part b) (neg_part a + pos_part b)

infix 50 ◌≤ℤ◌ ◌<ℤ◌
abbrev pub ◌≤ℤ◌ : ℤ → ℤ → Type 0
a ≤ℤ b = pos_part a + neg_part b ≤ pos_part b + neg_part a

abbrev pub ◌<ℤ◌ : ℤ → ℤ → Type 0
a <ℤ b = pos_part a + neg_part b < pos_part b + neg_part a

-- `a < b`
abbrev pub ltb_ℤ : ℤ → ℤ → Bool
ltb_ℤ a b = ltb (pos_part a + neg_part b) (pos_part b + neg_part a)

-- The number -n.
abbrev pub negated : ℕ → ℤ
negated zero = pos 0
negated (suc n) = negsuc n

-- Go's division by a number that is not negative: the part behind the point is dropped.
unfoldable pub truncated : ℤ → ℕ → ℤ
truncated (pos n) d = pos (n / d)
truncated (negsuc n) d = negated ((n + 1) / d)

pub +ℤ_parts :
    (a b : ℤ)
    → pos_part (a +ℤ b) + neg_part a + neg_part b ≡ neg_part (a +ℤ b) + pos_part a + pos_part b
unfolding ◌+ℤ◌
+ℤ_parts a b = ground arith

pub -ℤ_parts :
    (a b : ℤ)
    → pos_part (a -ℤ b) + neg_part a + pos_part b ≡ neg_part (a -ℤ b) + pos_part a + neg_part b
unfolding ◌-ℤ◌
-ℤ_parts a b = ground arith

abbrev pub int64_mod : ℕ
int64_mod = 18446744073709551616

abbrev pub int64_half : ℕ
int64_half = 9223372036854775808

-- Two's complement wrap-around into -2^63 .. 2^63 - 1.
unfoldable pub to_int64 : ℤ → ℤ
to_int64 z =
    let u : ℕ = (pos_part z % int64_mod + (int64_mod - neg_part z % int64_mod)) % int64_mod in
    if ltb u int64_half then pos u else negsuc (int64_mod - u - 1)

-- The addition and the subtraction of Go on int64.
unfoldable pub add64 : ℤ → ℤ → ℤ
unfolding to_int64
add64 a b = to_int64 (a +ℤ b)

unfoldable pub sub64 : ℤ → ℤ → ℤ
unfolding to_int64
sub64 a b = to_int64 (a -ℤ b)

abbrev pub IsInt64 : ℤ → Type 0
IsInt64 z = (pos_part z < int64_half) × (neg_part z ≤ int64_half)

pub to_int64_of_IsInt64 : (z : ℤ) → IsInt64 z → to_int64 z ≡ z
unfolding to_int64
to_int64_of_IsInt64 (pos n) h = ground arith
to_int64_of_IsInt64 (negsuc n) h = ground arith
