-- ===== src/Base/Digits.antt =====
-- The lowest binary digits of a number, from the recursion that the native operation stands for.
use Prim.Native.Nat.{ℕ, zero, suc, ◌+◌, ◌*◌, ◌/◌, ◌%◌, ◌≤◌, min, bit_and, digits, bit_and-bitwise}
use mathlib.Core.Path.{◌≡◌, refl}
use native.Mathlib.Omega.{arith}

digits_and : ℕ → ℕ → ℕ → ℕ
digits_and n a b = digits (λ y. 0) min n a b

enough_digits : (n m a b : ℕ) → a ≤ n → a ≤ m → digits_and n a b ≡ digits_and m a b
unfolding digits_and
enough_digits zero zero a b h k = refl
enough_digits zero (suc m) zero b h k = refl
enough_digits (suc n) zero zero b h k = refl
enough_digits (suc n) (suc m) zero b h k = refl
enough_digits (suc n) (suc m) (suc a) b h k =
    omega (arith, enough_digits n m (suc a / 2) (b / 2) (omega arith) (omega arith))
enough_digits zero (suc m) (suc a) b h k = absurd (omega arith)
enough_digits (suc n) zero (suc a) b h k = absurd (omega arith)

bit_and_zero : (b : ℕ) → bit_and 0 b ≡ 0
bit_and_zero b = bit_and-bitwise 0 b

digit : (a b : ℕ) → bit_and a b ≡ bit_and (a / 2) (b / 2) * 2 + min (a % 2) (b % 2)
unfolding digits_and
digit zero b = omega (arith, bit_and_zero b, bit_and_zero (b / 2))
digit (suc a) b = omega (
  arith,
  bit_and-bitwise (suc a) b,
  bit_and-bitwise (suc a / 2) (b / 2),
  enough_digits a (suc a / 2) (suc a / 2) (b / 2) (omega arith) (omega arith),
)

no_digits : (n a : ℕ) → a ≤ n → bit_and a 0 ≡ 0
no_digits n zero h = refl
no_digits zero (suc a) h = absurd (omega arith)
no_digits (suc n) (suc a) h = omega (arith, digit (suc a) 0, no_digits n (suc a / 2) (omega arith))

low_1 : (a : ℕ) → bit_and a 1 ≡ a % 2
low_1 a = omega (arith, digit a 1, no_digits (a / 2) (a / 2) (omega arith))

low_2 : (a : ℕ) → bit_and a 3 ≡ a % 4
low_2 a = omega (arith, digit a 3, low_1 (a / 2))

low_5 : (a : ℕ) → bit_and a 31 ≡ a % 32
low_5 a = omega (arith, digit a 31, digit (a / 2) 15, digit (a / 2 / 2) 7, low_2 (a / 2 / 2 / 2))

pub low_7 : (a : ℕ) → bit_and a 127 ≡ a % 128
low_7 a = omega (arith, digit a 127, digit (a / 2) 63, low_5 (a / 2 / 2))
