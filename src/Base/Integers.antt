-- ===== src/Base/Integers.antt =====
-- Signed integers over the native numbers.
use Prim.Native.Nat.{ℕ, suc, ◌+◌, ◌-◌, ◌*◌, ◌/◌, ◌%◌, ◌≤◌, min}
use mathlib.Core.Path.{◌≡◌}
use mathlib.Core.Bool.{Bool}
use native.Mathlib.Omega.{arith}
use oxlens_sfu.Base.Tests.{ltb, leb, ◌==◌, if◌then◌else◌}

pub data ℤ : Type 0 where
  pos : ℕ → ℤ
  negsuc : ℕ → ℤ

abbrev pub pos_part : ℤ → ℕ
pos_part (ℤ.pos n) = n
pos_part (ℤ.negsuc n) = 0

abbrev pub neg_part : ℤ → ℕ
neg_part (ℤ.pos n) = 0
neg_part (ℤ.negsuc n) = suc n

-- The difference of two natural numbers.
abbrev pub sub_ℕ : ℕ → ℕ → ℤ
sub_ℕ a b = if leb b a then ℤ.pos (a - b) else ℤ.negsuc (b - a - 1)

infixl 65 ◌+ℤ◌ ◌-ℤ◌
unfoldable pub ◌+ℤ◌ : ℤ → ℤ → ℤ
a +ℤ b = sub_ℕ (pos_part a + pos_part b) (neg_part a + neg_part b)

unfoldable pub ◌-ℤ◌ : ℤ → ℤ → ℤ
a -ℤ b = sub_ℕ (pos_part a + neg_part b) (neg_part a + pos_part b)

-- The multiple of an integer.
unfoldable pub scale : ℕ → ℤ → ℤ
scale k a = sub_ℕ (pos_part a * k) (neg_part a * k)

abbrev pub ltb_ℤ : ℤ → ℤ → Bool
ltb_ℤ a b = ltb (pos_part a + neg_part b) (pos_part b + neg_part a)

abbrev pub leb_ℤ : ℤ → ℤ → Bool
leb_ℤ a b = leb (pos_part a + neg_part b) (pos_part b + neg_part a)

abbrev pub eqb_ℤ : ℤ → ℤ → Bool
eqb_ℤ a b = pos_part a + neg_part b == pos_part b + neg_part a

infix 50 ◌≤ℤ◌
abbrev pub ◌≤ℤ◌ : ℤ → ℤ → Type 0
a ≤ℤ b = pos_part a + neg_part b ≤ pos_part b + neg_part a

-- `div_euclid` by a positive number.
unfoldable pub div_euclid : ℤ → ℕ → ℤ
div_euclid (ℤ.pos n) k = ℤ.pos (n / k)
div_euclid (ℤ.negsuc n) k = ℤ.negsuc (n / k)

-- The lowest binary digits, of two's complement: what is left by `m`, a power of two.
unfoldable pub wrap : ℕ → ℤ → ℕ
wrap m (ℤ.pos n) = n % m
wrap m (ℤ.negsuc n) = m - 1 - n % m

-- `clamp` between `- low` and `high`.
abbrev pub clamp : ℕ → ℕ → ℤ → ℤ
clamp low high (ℤ.pos n) = ℤ.pos (min n high)
clamp low high (ℤ.negsuc n) = if leb (suc n) low then ℤ.negsuc n else ℤ.negsuc (low - 1)

-- The parts of what the operations give, which are numbers.
pub +ℤ_parts :
    (a b : ℤ)
    → pos_part (a +ℤ b) + neg_part a + neg_part b ≡ neg_part (a +ℤ b) + pos_part a + pos_part b
unfolding ◌+ℤ◌
+ℤ_parts a b = ground arith

pub -ℤ_parts :
    (a b : ℤ)
    → pos_part (a -ℤ b) + neg_part a + pos_part b ≡ neg_part (a -ℤ b) + pos_part a + neg_part b
unfolding ◌-ℤ◌
-ℤ_parts a b = ground arith
