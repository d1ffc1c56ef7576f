-- ===== src/Mesh/KeyExpr/Soundness.antt =====
-- crates/oxmesh/src/keyexpr.rs: what the loop of `intersects` answers, a key bears out.
use oxlens_sfu.Base.{
  ℕ, zero, suc, ◌≡◌, ◌∙◌, ◌⊎◌, refl, sym, Bool, true, false, ◌&&◌, ◌||◌, List, [], ◌∷◌, All, arith,
  if◌then◌else◌, Bool-cases, inl, inr,
}
use mathlib.Core.Path.{subst}
use oxlens_sfu.Mesh.Wire.Cursor.{Bytes}
use oxlens_sfu.Mesh.KeyExpr.{
  same, is_empty, contains, star, double_star, next, at_end, round, intersects_from,
}
use oxlens_sfu.Mesh.KeyExpr.Matching.{Chunk, IsConcrete, Matches, Meet, Meet-flip}
use oxlens_sfu.Mesh.KeyExpr.Texts.{
  text, join, expr, IsChunk, IsExpr, IsExpr-rest, same_iff, next-expr, expr_present, expr_absent,
  word_double_star, word_star, expr_injective,
}

-- Some key that an expression matches.
pub own_key : (p : List Chunk) → All IsChunk p → Meet p p
unfolding IsChunk contains
own_key [] h = record { key = []; left = Matches.ends; right = Matches.ends }
own_key (Chunk.any ∷ p) (h, hs) =
    let m = own_key p hs in
    record { key = m.key; left = Matches.leave m.left; right = Matches.leave m.left }
own_key (Chunk.one ∷ p) (h, hs) =
    let m = own_key p hs in
    record {
      key = (120 ∷ []) ∷ m.key;
      left = Matches.fill refl m.left;
      right = Matches.fill refl m.left;
    }
own_key (Chunk.word w ∷ p) (h, hs) =
    let m = own_key p hs in
    record { key = w ∷ m.key; left = Matches.spell h.1 m.left; right = Matches.spell h.1 m.left }

any_matches : {q : List Chunk} {k : List Bytes} → Matches q k → Matches (Chunk.any ∷ []) k
any_matches Matches.ends = Matches.leave Matches.ends
any_matches (Matches.spell h m) = Matches.take h (any_matches m)
any_matches (Matches.fill h m) = Matches.take h (any_matches m)
any_matches (Matches.leave m) = any_matches m
any_matches (Matches.take h m) = Matches.take h (any_matches m)

any_meets : (q : List Chunk) → All IsChunk q → Meet (Chunk.any ∷ []) q
any_meets q h =
    let m = own_key q h in record { key = m.key; left = any_matches m.left; right = m.left }

-- Against `**`, the other side can have one chunk more.
any_grow :
    (p q : List Chunk) (d : Chunk)
    → IsChunk d
    → Meet (Chunk.any ∷ p) q
    → Meet (Chunk.any ∷ p) (d ∷ q)
unfolding IsChunk contains
any_grow p q Chunk.any h m = record { key = m.key; left = m.left; right = Matches.leave m.right }
any_grow p q Chunk.one h m = record {
  key = (120 ∷ []) ∷ m.key;
  left = Matches.take refl m.left;
  right = Matches.fill refl m.right;
}
any_grow p q (Chunk.word w) h m = record {
  key = w ∷ m.key;
  left = Matches.take h.1 m.left;
  right = Matches.spell h.1 m.right;
}

any_drop : (p q : List Chunk) → Meet p q → Meet (Chunk.any ∷ p) q
any_drop p q m = record { key = m.key; left = Matches.leave m.left; right = m.right }

pub no_chunks : (p : List Chunk) → All IsChunk p → is_empty (expr p) ≡ true → p ≡ []
no_chunks [] h e = refl
no_chunks (c ∷ p) h e = let d = expr_present c p h.0 in absurd (ground arith)

or_cases : (a b : Bool) → (a || b) ≡ true → (a ≡ true) ⊎ (b ≡ true)
or_cases true b e = inl refl
or_cases false b e = inr e

-- What a round asks of the rounds after it is right about these.
module _ (go : Bool → Bytes → Bytes → Bool) where
  unfoldable pub Sound : Type 0
  Sound =
      (f : Bool) (p q : List Chunk) → IsExpr p → IsExpr q → go f (expr p) (expr q) ≡ true → Meet p q

  any_sound :
      (d : Chunk) (p q : List Chunk)
      → Sound
      → IsExpr (Chunk.any ∷ p)
      → IsExpr (d ∷ q)
      → (if is_empty (expr p)
          then true
          else go true (expr (Chunk.any ∷ p)) (expr q) || go true (expr p) (expr (d ∷ q)))
        ≡ true
      → Meet (Chunk.any ∷ p) (d ∷ q)
  unfolding Sound
  any_sound d p q s h k e = elim (Bool-cases (is_empty (expr p))) [
    | inl z ↦
        subst (λ r. Meet (Chunk.any ∷ r) (d ∷ q)) (sym (no_chunks p h.0.1 z))
          (any_meets (d ∷ q) k.0)
    | inr z ↦ elim (or_cases _ _ (rw z at e)) [
      | inl a ↦ any_grow p q d k.0.0 (s true (Chunk.any ∷ p) q h (IsExpr-rest d q k) a)
      | inr a ↦ any_drop p (d ∷ q) (s true p (d ∷ q) (IsExpr-rest Chunk.any p h) k a)
    ]
  ]

pub word-IsConcrete : (w : Bytes) → IsChunk (Chunk.word w) → IsConcrete w
unfolding IsChunk
word-IsConcrete w h = h.1

x-IsConcrete : IsConcrete (120 ∷ [])
unfolding contains
x-IsConcrete = refl

if_both : (t x : Bool) → (if t then x else false) ≡ true → (t ≡ true) × (x ≡ true)
if_both true x e = (refl, e)
if_both false x e = ground arith

module _ (go : Bool → Bytes → Bytes → Bool) (s : Sound go) where
  flipped : Sound (λ f x y. go f y x)
  unfolding Sound
  flipped f p q h k e = Meet-flip (s f q p k h e)

  plain_round :
      (c d : Chunk) (p q : List Chunk)
      → same (text c) double_star ≡ false
      → same (text d) double_star ≡ false
      → IsExpr (c ∷ p)
      → IsExpr (d ∷ q)
      → round go (expr (c ∷ p)) (expr (d ∷ q)) (text c) (expr p) (text d) (expr q) ≡ true
      → ((same (text c) (text d) || same (text c) star || same (text d) star) ≡ true) × Meet p q
  unfolding round Sound
  plain_round c d p q x y h k e =
      let (t, g) = if_both _ _ (rw (x, y) at e) in
      (t, s false p q (IsExpr-rest c p h) (IsExpr-rest d q k) g)

  round_sound :
      (c d : Chunk) (p q : List Chunk)
      → IsExpr (c ∷ p)
      → IsExpr (d ∷ q)
      → round go (expr (c ∷ p)) (expr (d ∷ q)) (text c) (expr p) (text d) (expr q) ≡ true
      → Meet (c ∷ p) (d ∷ q)
  unfolding round text same
  round_sound Chunk.any d p q h k e = any_sound go d p q s h k e
  round_sound Chunk.one Chunk.any p q h k e =
      Meet-flip (any_sound (λ f x y. go f y x) Chunk.one q p flipped k h e)
  round_sound (Chunk.word w) Chunk.any p q h k e = Meet-flip (
      any_sound (λ f x y. go f y x) (Chunk.word w) q p flipped k h
        (rw (word_double_star w h.0.0) at e))
  round_sound Chunk.one Chunk.one p q h k e =
      let m = (plain_round Chunk.one Chunk.one p q refl refl h k e).1 in
      record {
        key = (120 ∷ []) ∷ m.key;
        left = Matches.fill x-IsConcrete m.left;
        right = Matches.fill x-IsConcrete m.right;
      }
  round_sound Chunk.one (Chunk.word v) p q h k e =
      let m = (plain_round Chunk.one (Chunk.word v) p q refl (word_double_star v k.0.0) h k e).1 in
      let i = word-IsConcrete v k.0.0 in
      record { key = v ∷ m.key; left = Matches.fill i m.left; right = Matches.spell i m.right }
  round_sound (Chunk.word w) Chunk.one p q h k e =
      let m = (plain_round (Chunk.word w) Chunk.one p q (word_double_star w h.0.0) refl h k e).1 in
      let i = word-IsConcrete w h.0.0 in
      record { key = w ∷ m.key; left = Matches.spell i m.left; right = Matches.fill i m.right }
  round_sound (Chunk.word w) (Chunk.word v) p q h k e =
      let (t, m) =
        plain_round (Chunk.word w) (Chunk.word v) p q (word_double_star w h.0.0)
          (word_double_star v k.0.0) h k e in
      let a = word_star w h.0.0 in
      let b = word_star v k.0.0 in
      let i : same w v ≡ true = ground arith in
      let j = word-IsConcrete w h.0.0 in
      subst (λ x. Meet (Chunk.word w ∷ p) (Chunk.word x ∷ q)) ((same_iff w v).0 i)
        (record { key = w ∷ m.key; left = Matches.spell j m.left; right = Matches.spell j m.right })

unfoldable pub or_empty : Bytes → Bool
or_empty a = is_empty a || same a double_star

nothing_meets : (q : List Chunk) → IsExpr q → or_empty (expr q) ≡ true → Meet [] q
unfolding or_empty
nothing_meets [] h e = record { key = []; left = Matches.ends; right = Matches.ends }
nothing_meets (d ∷ q) h e =
    let x = expr_present d q h.0.0 in
    let y : same (expr (d ∷ q)) double_star ≡ true = ground arith in
    let z : d ∷ q ≡ Chunk.any ∷ [] =
      expr_injective (d ∷ q) (Chunk.any ∷ []) h.0 (unfold IsChunk in (_, _))
        ((same_iff (expr (d ∷ q)) double_star).0 y ∙ unfold expr join text in refl) in
    subst (Meet []) (sym z)
      (record { key = []; left = Matches.ends; right = Matches.leave Matches.ends })

-- The loop without the comparison at its start.
unfoldable pub rounds : ℕ → Bytes → Bytes → Bool
rounds n a b =
    if is_empty a || is_empty b
    then at_end a b
    else round (intersects_from n) a b (next a).0 (next a).1 (next b).0 (next b).1

pub rounds-expr :
    (n : ℕ) (c d : Chunk) (p q : List Chunk)
    → IsChunk c
    → IsChunk d
    → rounds n (expr (c ∷ p)) (expr (d ∷ q))
      ≡ round (intersects_from n) (expr (c ∷ p)) (expr (d ∷ q)) (text c) (expr p) (text d) (expr q)
unfolding rounds
rounds-expr n c d p q h k =
    rw (expr_present c p h, expr_present d q k, next-expr c p h, next-expr d q k) refl

rounds_sound :
    (n : ℕ) (p q : List Chunk)
    → Sound (intersects_from n)
    → IsExpr p
    → IsExpr q
    → rounds n (expr p) (expr q) ≡ true
    → Meet p q
unfolding rounds at_end or_empty
rounds_sound n [] q s h k e = let z = expr_absent in nothing_meets q k (ground arith)
rounds_sound n (c ∷ p) [] s h k e =
    let z = expr_absent in
    let y = expr_present c p h.0.0 in Meet-flip (nothing_meets (c ∷ p) h (ground arith))
rounds_sound n (c ∷ p) (d ∷ q) s h k e =
    round_sound (intersects_from n) s c d p q h k (sym (rounds-expr n c d p q h.0.0 k.0.0) ∙ e)

pub intersects_sound : (n : ℕ) → Sound (intersects_from n)
unfolding Sound intersects_from rounds
intersects_sound zero f p q h k e = ground arith
intersects_sound (suc n) f p q h k e = elim (Bool-cases (f && same (expr p) (expr q))) [
  | inl z ↦
      let y : same (expr p) (expr q) ≡ true = ground arith in
      subst (Meet p) (expr_injective p q h.0 k.0 ((same_iff (expr p) (expr q)).0 y)) (own_key p h.0)
  | inr z ↦ rounds_sound n p q (intersects_sound n) h k (rw z at e)
]
