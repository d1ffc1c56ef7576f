-- ===== src/Base/Bytes.antt =====
-- Bytes: facts checked over all values, masks as arithmetic, and big-endian words.
use Prim.Native.Nat.{ℕ, zero, suc, ◌+◌, ◌*◌, ◌/◌, ◌%◌, ◌<◌, bit_and, bit_or, compare, Ordering}
use mathlib.Core.Path.{◌≡◌, refl, ◌∙◌}
use mathlib.Core.Bool.{Bool, true, false, ◌&&◌}
use mathlib.Core.List.{List, [], ◌∷◌}
use native.Mathlib.Omega.{arith}

abbrev pub IsByte : ℕ → Type 0
IsByte b = b < 256

same : ℕ → ℕ → Bool
same a b = elim (compare a b) [ Ordering.eq ↦ true | _ ↦ false ]

module _ (f g : ℕ → ℕ) where
  unfoldable pub agree_below : ℕ → Bool
  unfolding same
  agree_below zero = true
  agree_below (suc n) = agree_below n && same (f n) (g n)

  -- Two functions that agree on all values below a bound, by evaluation.
  pub agree_below-eq : (n : ℕ) → agree_below n ≡ true → (i : ℕ) → i < n → f i ≡ g i
  unfolding agree_below
  agree_below-eq zero e i h = absurd (omega arith)
  agree_below-eq (suc n) e i h = ground (arith, agree_below-eq n (ground arith) i)

-- The two lowest bits, and the other six.
pub and_3 : (b : ℕ) → b < 256 → bit_and b 3 ≡ b % 4
unfolding agree_below
and_3 = agree_below-eq (λ b. bit_and b 3) (λ b. b % 4) 256 refl

pub and_252 : (b : ℕ) → b < 256 → bit_and b 252 ≡ b / 4 * 4
unfolding agree_below
and_252 = agree_below-eq (λ b. bit_and b 252) (λ b. b / 4 * 4) 256 refl

pub and_127 : (b : ℕ) → b < 256 → bit_and b 127 ≡ b % 128
unfolding agree_below
and_127 = agree_below-eq (λ b. bit_and b 127) (λ b. b % 128) 256 refl

pub and_128 : (b : ℕ) → b < 256 → bit_and b 128 ≡ b / 128 * 128
unfolding agree_below
and_128 = agree_below-eq (λ b. bit_and b 128) (λ b. b / 128 * 128) 256 refl

or_128 : (p : ℕ) → p < 128 → bit_or 128 p ≡ 128 + p
unfolding agree_below
or_128 = agree_below-eq (λ p. bit_or 128 p) (λ p. 128 + p) 128 refl

or_0 : (p : ℕ) → p < 128 → bit_or 0 p ≡ p
unfolding agree_below
or_0 = agree_below-eq (λ p. bit_or 0 p) (λ p. p) 128 refl

pub or_high : (h p : ℕ) → h < 2 → p < 128 → bit_or (h * 128) p ≡ h * 128 + p
or_high zero p k l = or_0 p l ∙ omega arith
or_high (suc zero) p k l = or_128 p l
or_high (suc (suc h)) p k l = absurd (omega arith)

-- Setting the top bit of a byte of seven bits.
pub or_top : (p : ℕ) → p < 128 → bit_or p 128 ≡ p + 128
unfolding agree_below
or_top = agree_below-eq (λ p. bit_or p 128) (λ p. p + 128) 128 refl

-- `to_be_bytes` and `from_be_bytes`.
abbrev pub be16 : ℕ → List ℕ
be16 n = (n / 256 % 256) ∷ (n % 256) ∷ []

abbrev pub from_be16 : ℕ → ℕ → ℕ
from_be16 a b = a * 256 + b

abbrev pub be32 : ℕ → List ℕ
be32 n = (n / 16777216 % 256) ∷ (n / 65536 % 256) ∷ (n / 256 % 256) ∷ (n % 256) ∷ []

abbrev pub from_be32 : ℕ → ℕ → ℕ → ℕ → ℕ
from_be32 a b c d = a * 16777216 + b * 65536 + c * 256 + d
