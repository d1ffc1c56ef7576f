-- ===== src/Mesh/KeyExpr/Completeness.antt =====
-- crates/oxmesh/src/keyexpr.rs: the loop of `intersects` answers what a key bears out, in enough rounds
use oxlens_sfu.Base.{
  ℕ, zero, suc, ◌+◌, ◌≤◌, ◌<◌, ◌≡◌, ◌∙◌, refl, Bool, true, false, ◌&&◌, ◌||◌, List, [], ◌∷◌, arith,
  length, if◌then◌else◌, if_cases, inl, inr,
}
use mathlib.Core.List.{cons-ne-nil}
use oxlens_sfu.Mesh.Wire.Cursor.{Bytes}
use oxlens_sfu.Mesh.KeyExpr.{same, is_empty, star, double_star, at_end, round, intersects_from}
use oxlens_sfu.Mesh.KeyExpr.Matching.{Chunk, Matches, Meet, Meet-flip, any_step}
use oxlens_sfu.Mesh.KeyExpr.Texts.{
  text, join, expr, NotBothAny, Apart, IsExpr, IsExpr-rest, same_iff, expr_present, expr_absent,
  word_double_star,
}
use oxlens_sfu.Mesh.KeyExpr.Soundness.{or_empty, rounds, rounds-expr}

module _ (go : Bool → Bytes → Bytes → Bool) (n : ℕ) where
  -- With as many rounds as there are chunks, what meets is found.
  unfoldable pub Complete : Type 0
  Complete =
      (f : Bool) (p q : List Chunk)
      → IsExpr p
      → IsExpr q
      → length p + length q < n
      → Meet p q
      → go f (expr p) (expr q) ≡ true

module _ (go : Bool → Bytes → Bytes → Bool) (n : ℕ) (s : Complete go n) where
  flipped : Complete (λ f x y. go f y x) n
  unfolding Complete
  flipped f p q h k l m = s f q p k h (omega arith) (Meet-flip m)

  any_complete :
      (d : Chunk) (p q : List Chunk)
      → IsExpr (Chunk.any ∷ p)
      → IsExpr (d ∷ q)
      → suc (suc (length p + length q)) ≤ n
      → Meet (Chunk.any ∷ p) (d ∷ q)
      → (if is_empty (expr p)
          then true
          else go true (expr (Chunk.any ∷ p)) (expr q) || go true (expr p) (expr (d ∷ q)))
        ≡ true
  unfolding Complete
  any_complete d p q h k l m = elim (any_step m.left m.right) [
    | inl a ↦ let x = s true (Chunk.any ∷ p) q h (IsExpr-rest d q k) (omega arith) a in ground arith
    | inr a ↦ let x = s true p (d ∷ q) (IsExpr-rest Chunk.any p h) k (omega arith) a in ground arith
  ]

  plain_complete :
      (c d : Chunk) (p q : List Chunk)
      → same (text c) double_star ≡ false
      → same (text d) double_star ≡ false
      → (same (text c) (text d) || same (text c) star || same (text d) star) ≡ true
      → IsExpr (c ∷ p)
      → IsExpr (d ∷ q)
      → suc (suc (length p + length q)) ≤ n
      → Meet p q
      → round go (expr (c ∷ p)) (expr (d ∷ q)) (text c) (expr p) (text d) (expr q) ≡ true
  unfolding round Complete
  plain_complete c d p q x y z h k l m =
      rw (x, y, z) (s false p q (IsExpr-rest c p h) (IsExpr-rest d q k) (omega arith) m)

unfoldable pub Plain : Chunk → Type 0
Plain Chunk.any = ⊥
Plain _ = Unit {0}

or_true : (a b : Bool) → b ≡ true → (a || b) ≡ true
or_true true b e = refl
or_true false b e = e

-- What two chunks have in common when both begin expressions of the same key.
common :
    {c d : Chunk} {p q : List Chunk} {k : List Bytes}
    → Plain c
    → Plain d
    → Matches (c ∷ p) k
    → Matches (d ∷ q) k
    → ((same (text c) (text d) || same (text c) star || same (text d) star) ≡ true) × Meet p q
unfolding Plain text same
common x y (Matches.spell {w = w} i m) (Matches.spell j n) =
    let e = (same_iff w w).1 refl in (ground arith, record { key = _; left = m; right = n })
common x y (Matches.spell {w = w} i m) (Matches.fill j n) =
    (or_true (same w star || same w star) true refl, record { key = _; left = m; right = n })
common x y (Matches.fill i m) (Matches.spell {w = w} j n) =
    (ground arith, record { key = _; left = m; right = n })
common x y (Matches.fill i m) (Matches.fill j n) = (refl, record { key = _; left = m; right = n })
common x y (Matches.leave m) n = absurd x
common x y (Matches.take i m) n = absurd x
common x y (Matches.spell i m) (Matches.leave n) = absurd y
common x y (Matches.spell i m) (Matches.take j n) = absurd y
common x y (Matches.fill i m) (Matches.leave n) = absurd y
common x y (Matches.fill i m) (Matches.take j n) = absurd y

module _ (go : Bool → Bytes → Bytes → Bool) (n : ℕ) (s : Complete go n) where
  round_complete :
      (c d : Chunk) (p q : List Chunk)
      → IsExpr (c ∷ p)
      → IsExpr (d ∷ q)
      → suc (suc (length p + length q)) ≤ n
      → Meet (c ∷ p) (d ∷ q)
      → round go (expr (c ∷ p)) (expr (d ∷ q)) (text c) (expr p) (text d) (expr q) ≡ true
  unfolding round text same Plain
  round_complete Chunk.any d p q h k l m = any_complete go n s d p q h k l m
  round_complete Chunk.one Chunk.any p q h k l m =
      any_complete (λ f x y. go f y x) n (flipped go n s) Chunk.one q p k h (omega arith)
        (Meet-flip m)
  round_complete (Chunk.word w) Chunk.any p q h k l m = rw (word_double_star w h.0.0) (
      any_complete (λ f x y. go f y x) n (flipped go n s) (Chunk.word w) q p k h (omega arith)
        (Meet-flip m))
  round_complete Chunk.one Chunk.one p q h k l m =
      let (t, r) = common {c = Chunk.one} {d = Chunk.one} _ _ m.left m.right in
      plain_complete go n s Chunk.one Chunk.one p q refl refl t h k l r
  round_complete Chunk.one (Chunk.word v) p q h k l m =
      let (t, r) = common {c = Chunk.one} {d = Chunk.word v} _ _ m.left m.right in
      plain_complete go n s Chunk.one (Chunk.word v) p q refl (word_double_star v k.0.0) t h k l r
  round_complete (Chunk.word w) Chunk.one p q h k l m =
      let (t, r) = common {c = Chunk.word w} {d = Chunk.one} _ _ m.left m.right in
      plain_complete go n s (Chunk.word w) Chunk.one p q (word_double_star w h.0.0) refl t h k l r
  round_complete (Chunk.word w) (Chunk.word v) p q h k l m =
      let (t, r) = common {c = Chunk.word w} {d = Chunk.word v} _ _ m.left m.right in
      plain_complete go n s (Chunk.word w) (Chunk.word v) p q (word_double_star w h.0.0)
        (word_double_star v k.0.0) t h k l r

-- Only nothing, and `**` alone, match the empty key.
no_key : (q : List Chunk) → IsExpr q → Matches q [] → or_empty (expr q) ≡ true
unfolding or_empty Apart NotBothAny
no_key [] h Matches.ends = let z = expr_absent in ground arith
no_key (c ∷ []) h (Matches.leave m) = unfold expr join text same is_empty in refl
no_key (c ∷ d ∷ q) h (Matches.leave (Matches.leave m)) = absurd h.1.0

nothing_left :
    {p q : List Chunk} {k : List Bytes} → p ≡ [] → Matches p k → Matches q k → Matches q []
nothing_left e Matches.ends m = m
nothing_left e (Matches.spell h m) n = absurd (cons-ne-nil _ _ e)
nothing_left e (Matches.fill h m) n = absurd (cons-ne-nil _ _ e)
nothing_left e (Matches.leave m) n = absurd (cons-ne-nil _ _ e)
nothing_left e (Matches.take h m) n = absurd (cons-ne-nil _ _ e)

rounds_complete :
    (n : ℕ) (p q : List Chunk)
    → Complete (intersects_from n) n
    → IsExpr p
    → IsExpr q
    → length p + length q ≤ n
    → Meet p q
    → rounds n (expr p) (expr q) ≡ true
unfolding rounds at_end or_empty
rounds_complete n [] q s h k l m =
    let z = expr_absent in let y = no_key q k (nothing_left refl m.left m.right) in ground arith
rounds_complete n (c ∷ p) [] s h k l m =
    let z = expr_absent in
    let y = no_key (c ∷ p) h (nothing_left refl m.right m.left) in
    let x = expr_present c p h.0.0 in ground arith
rounds_complete n (c ∷ p) (d ∷ q) s h k l m =
    rounds-expr n c d p q h.0.0 k.0.0
    ∙ round_complete (intersects_from n) n s c d p q h k (omega arith) m

pub intersects_complete : (n : ℕ) → Complete (intersects_from n) n
unfolding Complete intersects_from rounds
intersects_complete zero f p q h k l m = absurd (omega arith)
intersects_complete (suc n) f p q h k l m =
    if_cases (λ r. r ≡ true) (f && same (expr p) (expr q)) (λ _. refl)
      (λ _. rounds_complete n p q (intersects_complete n) h k (omega arith) m)
