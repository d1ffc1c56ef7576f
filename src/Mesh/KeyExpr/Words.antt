-- ===== src/Mesh/KeyExpr/Words.antt =====
-- crates/oxmesh/src/keyexpr.rs: expressions without stars.
use oxlens_sfu.Base.{
  ℕ, ◌==◌, ◌≡◌, ◌∙◌, refl, sym, ap, true, false, List, [], ◌∷◌, map, All, arith, Bool-cases,
  if_cases, inl, inr,
}
use mathlib.Core.Path.{subst}
use oxlens_sfu.Mesh.Wire.Cursor.{Bytes}
use oxlens_sfu.Mesh.KeyExpr.{
  same, contains, star, double_star, put_first, split, valid, concrete, intersects,
}
use oxlens_sfu.Mesh.KeyExpr.Matching.{Chunk, IsConcrete, Matches, Meet}
use oxlens_sfu.Mesh.KeyExpr.Texts.{join, chunk_of, not_star, same_iff}
use oxlens_sfu.Mesh.KeyExpr.Soundness.{own_key}
use oxlens_sfu.Mesh.KeyExpr.Meaning.{chunks_of, join-split, chunks_of-IsExpr, intersects_iff}

put_first-IsConcrete :
    (x : ℕ) (cs : List Bytes)
    → (x == 42) ≡ false
    → All IsConcrete cs
    → All IsConcrete (put_first x cs)
unfolding put_first contains
put_first-IsConcrete x [] e h = (ground arith, _)
put_first-IsConcrete x (c ∷ cs) e (h, hs) = (ground arith, hs)

split-IsConcrete : (s : Bytes) → IsConcrete s → All IsConcrete (split s)
unfolding split contains
split-IsConcrete [] h = (refl, _)
split-IsConcrete (x ∷ s) h =
    let i = split-IsConcrete s (ground arith) in
    if_cases (All IsConcrete) (x == 47) (λ _. (refl, i))
      (λ _. put_first-IsConcrete x (split s) (ground arith) i)

words : (cs : List Bytes) → All IsConcrete cs → map chunk_of cs ≡ map Chunk.word cs
unfolding chunk_of
words [] h = refl
words (c ∷ cs) (h, hs) =
    let a = not_star double_star c (unfold contains in refl) h in
    let b = not_star star c (unfold contains in refl) h in rw (a, b, words cs hs) refl

spelled : (cs : List Bytes) {k : List Bytes} → Matches (map Chunk.word cs) k → cs ≡ k
spelled [] Matches.ends = refl
spelled (c ∷ cs) (Matches.spell h m) = ap (λ l. c ∷ l) (spelled cs m)

chunks_of-words : (e : Bytes) → concrete e ≡ true → chunks_of e ≡ map Chunk.word (split e)
unfolding chunks_of concrete
chunks_of-words e c = words (split e) (split-IsConcrete e (ground arith))

-- Valid expressions without stars intersect when they are the same.
pub intersects-same :
    (e key : Bytes)
    → valid e ≡ true
    → valid key ≡ true
    → concrete e ≡ true
    → concrete key ≡ true
    → intersects e key ≡ same key e
intersects-same e key v w c d = elim (Bool-cases (same key e)) [
  | inl s ↦
      let p = (same_iff key e).0 s in
      let m =
        subst (λ x. Meet (chunks_of e) (chunks_of x)) (sym p)
          (own_key (chunks_of e) (chunks_of-IsExpr e v).0) in
      (intersects_iff e key v w).1 m ∙ sym s
  | inr s ↦ elim (Bool-cases (intersects e key)) [
    | inl i ↦
        let m = (intersects_iff e key v w).0 i in
        let p = spelled (split e) (subst (λ x. Matches x m.key) (chunks_of-words e c) m.left) in
        let q =
          spelled (split key) (subst (λ x. Matches x m.key) (chunks_of-words key d) m.right) in
        let r : key ≡ e = sym (join-split key) ∙ ap join (q ∙ sym p) ∙ join-split e in
        let t = (same_iff key e).1 r in ground arith
    | inr i ↦ i ∙ sym s
  ]
]
