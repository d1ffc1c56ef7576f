-- ===== src/Base.antt =====
-- The names that the other modules share: the libraries' and those of the children.
mod Tests
mod Lists
mod Bytes
mod Digits
mod Differ
mod Integers
pub use Tests.*
pub use Lists.*
pub use Integers.{
  ℤ, pos_part, neg_part, sub_ℕ, ltb_ℤ, leb_ℤ, eqb_ℤ, ◌≤ℤ◌, clamp, +ℤ_parts, -ℤ_parts,
}
unfoldable pub use Integers.{◌+ℤ◌, ◌-ℤ◌, scale, div_euclid, wrap}
pub use Bytes.{
  IsByte, agree_below-eq, and_3, and_252, and_127, and_128, or_high, or_top, be16, be32, from_be16,
  from_be32,
}
pub use Digits.{low_7}
pub use Differ.{xor_self, xor-zero, or-zero}
unfoldable pub use Bytes.{agree_below}
pub use Prim.Native.Nat.{ℕ, zero, suc, ◌+◌, ◌-◌, ◌*◌, ◌/◌, ◌%◌, ◌^◌, ◌≤◌, ◌<◌, bit_and, bit_or}
pub use mathlib.Core.Path.{◌≡◌, refl, sym, ap, ◌∙◌}
pub use mathlib.Core.Logic.{◌≢◌, ◌↔◌, ◌⊎◌, inl, inr}
pub use mathlib.Core.Bool.{Bool, true, false, not, ◌&&◌, ◌||◌}
pub use mathlib.Core.Option.{Option, none, some}
pub use mathlib.Core.List.{List, [], ◌∷◌, ◌++◌, map}
pub use native.Mathlib.Omega.{arith}
