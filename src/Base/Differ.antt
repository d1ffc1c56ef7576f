-- ===== src/Base/Differ.antt =====
-- The binary digits in which two numbers differ, from the recursion that the native operations
-- stand for.
use Prim.Native.Nat.{
  ℕ, zero, suc, ◌+◌, ◌*◌, ◌/◌, ◌%◌, ◌≤◌, max, differ, bit_or, bit_xor, digits, bit_or-bitwise,
  bit_xor-bitwise,
}
use mathlib.Core.Path.{◌≡◌, refl}
use native.Mathlib.Omega.{arith}

module _ (f : ℕ → ℕ → ℕ) where
  enough : (n m a b : ℕ) → a ≤ n → a ≤ m → digits (λ y. y) f n a b ≡ digits (λ y. y) f m a b
  enough zero zero a b h k = refl
  enough zero (suc m) zero b h k = refl
  enough (suc n) zero zero b h k = refl
  enough (suc n) (suc m) zero b h k = refl
  enough (suc n) (suc m) (suc a) b h k =
      omega (arith, enough n m (suc a / 2) (b / 2) (omega arith) (omega arith))
  enough zero (suc m) (suc a) b h k = absurd (omega arith)
  enough (suc n) zero (suc a) b h k = absurd (omega arith)

xor_digit :
    (a b : ℕ) → bit_xor (suc a) b ≡ bit_xor (suc a / 2) (b / 2) * 2 + differ (suc a % 2) (b % 2)
xor_digit a b = omega (
  arith,
  bit_xor-bitwise (suc a) b,
  bit_xor-bitwise (suc a / 2) (b / 2),
  enough differ a (suc a / 2) (suc a / 2) (b / 2) (omega arith) (omega arith),
)

or_digit : (a b : ℕ) → bit_or (suc a) b ≡ bit_or (suc a / 2) (b / 2) * 2 + max (suc a % 2) (b % 2)
or_digit a b = omega (
  arith,
  bit_or-bitwise (suc a) b,
  bit_or-bitwise (suc a / 2) (b / 2),
  enough max a (suc a / 2) (suc a / 2) (b / 2) (omega arith) (omega arith),
)

xor_zero : (b : ℕ) → bit_xor zero b ≡ b
xor_zero b = bit_xor-bitwise zero b

or_zero : (b : ℕ) → bit_or zero b ≡ b
or_zero b = bit_or-bitwise zero b

-- One digit against another.
differ_self : (x : ℕ) → differ x x ≡ 0
differ_self zero = refl
differ_self (suc x) = differ_self x

differ-zero : (x y : ℕ) → differ x y ≡ 0 → x ≡ y
differ-zero zero y h = omega arith
differ-zero (suc x) zero h = absurd (omega arith)
differ-zero (suc x) (suc y) h = omega (arith, differ-zero x y h)

xor_self_below : (n a : ℕ) → a ≤ n → bit_xor a a ≡ 0
xor_self_below n zero h = xor_zero 0
xor_self_below zero (suc a) h = absurd (omega arith)
xor_self_below (suc n) (suc a) h = omega (
  arith,
  xor_digit a (suc a),
  differ_self (suc a % 2),
  xor_self_below n (suc a / 2) (omega arith),
)

pub xor_self : (a : ℕ) → bit_xor a a ≡ 0
xor_self a = xor_self_below a a (omega arith)

xor-zero_below : (n a b : ℕ) → a ≤ n → bit_xor a b ≡ 0 → a ≡ b
xor-zero_below n zero b h e = omega (arith, xor_zero b)
xor-zero_below zero (suc a) b h e = absurd (omega arith)
xor-zero_below (suc n) (suc a) b h e =
    let d = xor_digit a b in
    let low = differ-zero (suc a % 2) (b % 2) (omega arith) in
    let high = xor-zero_below n (suc a / 2) (b / 2) (omega arith) (omega arith) in omega arith

-- Two numbers that differ in no digit are the same.
pub xor-zero : (a b : ℕ) → bit_xor a b ≡ 0 → a ≡ b
xor-zero a b = xor-zero_below a a b (omega arith)

or-zero_below : (n a b : ℕ) → a ≤ n → bit_or a b ≡ 0 → (a ≡ 0) × (b ≡ 0)
or-zero_below n zero b h e = (refl, omega (arith, or_zero b))
or-zero_below zero (suc a) b h e = absurd (omega arith)
or-zero_below (suc n) (suc a) b h e =
    let d = or_digit a b in
    let high = or-zero_below n (suc a / 2) (b / 2) (omega arith) (omega arith) in omega arith

pub or-zero : (a b : ℕ) → bit_or a b ≡ 0 → (a ≡ 0) × (b ≡ 0)
or-zero a b = or-zero_below a a b (omega arith)
