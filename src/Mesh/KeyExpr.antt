-- ===== src/Mesh/KeyExpr.antt =====
-- crates/oxmesh/src/keyexpr.rs: key expressions, as their bytes. A slash is 47 and a star 42.
use oxlens_sfu.Base.{
  ℕ, zero, suc, ◌+◌, ◌==◌, Bool, true, false, not, ◌&&◌, ◌||◌, List, [], ◌∷◌, length, if◌then◌else◌,
}
use oxlens_sfu.Mesh.Wire.Cursor.{Bytes}
pub mod Matching
pub mod Texts
pub mod Soundness
pub mod Completeness
pub mod Meaning
pub mod Words

unfoldable pub same : Bytes → Bytes → Bool
same [] [] = true
same (x ∷ a) (y ∷ b) = (x == y) && same a b
same _ _ = false

unfoldable pub is_empty : Bytes → Bool
is_empty [] = true
is_empty (x ∷ s) = false

unfoldable pub contains : ℕ → Bytes → Bool
contains c [] = false
contains c (x ∷ s) = (x == c) || contains c s

abbrev pub star : Bytes
star = 42 ∷ []

abbrev pub double_star : Bytes
double_star = 42 ∷ 42 ∷ []

-- `split('/')`.
unfoldable pub put_first : ℕ → List Bytes → List Bytes
put_first x [] = (x ∷ []) ∷ []
put_first x (c ∷ cs) = (x ∷ c) ∷ cs

unfoldable pub split : Bytes → List Bytes
split [] = [] ∷ []
split (x ∷ s) = let rest = split s in if x == 47 then [] ∷ rest else put_first x rest

unfoldable pub forbidden : Bytes → Bool
forbidden e = contains 36 e || contains 63 e || contains 35 e

unfoldable pub valid_chunks : Bool → List Bytes → Bool
valid_chunks prev_double [] = true
valid_chunks prev_double (c ∷ cs) =
    let double = same c double_star in
    let rest = valid_chunks double cs in
    if is_empty c || (contains 42 c && not (same c star) && not double)
    then false
    else if double && prev_double
    then false
    else rest

unfoldable pub valid : Bytes → Bool
valid e = if is_empty e || forbidden e then false else valid_chunks false (split e)

unfoldable pub concrete : Bytes → Bool
concrete e = not (contains 42 e)

unfoldable pub next : Bytes → Bytes × Bytes
next [] = ([], [])
next (x ∷ s) = let (c, r) = next s in if x == 47 then ([], s) else (x ∷ c, r)

unfoldable pub at_end : Bytes → Bytes → Bool
at_end a b = (is_empty a || same a double_star) && (is_empty b || same b double_star)

-- A round of the loop, with the first chunk and the rest of both sides. `go` is told whether it is
-- a call of the function, which compares its arguments, or the next round.
unfoldable pub round :
    (Bool → Bytes → Bytes → Bool) → Bytes → Bytes → Bytes → Bytes → Bytes → Bytes → Bool
round go a b c r d s =
    if same c double_star
    then (if is_empty r then true else go true a s || go true r b)
    else if same d double_star
    then (if is_empty s then true else go true r b || go true a s)
    else if same c d || same c star || same d star
    then go false r s
    else false

unfoldable pub intersects_from : ℕ → Bool → Bytes → Bytes → Bool
intersects_from zero entry a b = false
intersects_from (suc n) entry a b =
    if entry && same a b
    then true
    else if is_empty a || is_empty b
    then at_end a b
    else round (intersects_from n) a b (next a).0 (next a).1 (next b).0 (next b).1

-- Each round takes a chunk from one side.
unfoldable pub intersects : Bytes → Bytes → Bool
intersects a b = intersects_from (length a + length b + 1) true a b
