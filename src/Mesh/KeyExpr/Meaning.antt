-- ===== src/Mesh/KeyExpr/Meaning.antt =====
-- crates/oxmesh/src/keyexpr.rs: `intersects` of two valid expressions.
use oxlens_sfu.Base.{
  ℕ, ◌+◌, ◌<◌, ◌==◌, ◌≡◌, ◌∙◌, ◌↔◌, refl, sym, ap, Bool, true, false, not, ◌&&◌, List, [], ◌∷◌, map,
  All, arith, length, ==_iff, Bool-cases, if_cases, inl, inr,
}
use oxlens_sfu.Mesh.Wire.Cursor.{Bytes}
use oxlens_sfu.Mesh.KeyExpr.{
  same, is_empty, contains, star, double_star, split, put_first, valid, valid_chunks, intersects,
}
use oxlens_sfu.Mesh.KeyExpr.Matching.{Chunk, Meet}
use oxlens_sfu.Mesh.KeyExpr.Texts.{
  text, join, expr, chunk_of, text-chunk_of, IsChunk, NotBothAny, Apart, IsExpr, length-expr,
}
use oxlens_sfu.Mesh.KeyExpr.Completeness.{Plain, Complete, intersects_complete}
use oxlens_sfu.Mesh.KeyExpr.Soundness.{Sound, intersects_sound}

join-put_first : (x : ℕ) (cs : List Bytes) → join (put_first x cs) ≡ x ∷ join cs
unfolding join put_first
join-put_first x [] = refl
join-put_first x (c ∷ []) = refl
join-put_first x (c ∷ d ∷ cs) = refl

-- A text has a chunk at least.
IsSplit : List Bytes → Type 0
IsSplit [] = ⊥
IsSplit (c ∷ cs) = Unit {0}

put_first-IsSplit : (x : ℕ) (cs : List Bytes) → IsSplit (put_first x cs)
unfolding IsSplit put_first
put_first-IsSplit x [] = _
put_first-IsSplit x (c ∷ cs) = _

split-IsSplit : (s : Bytes) → IsSplit (split s)
unfolding split IsSplit
split-IsSplit [] = _
split-IsSplit (x ∷ s) = if_cases IsSplit (x == 47) (λ _. _) (λ _. put_first-IsSplit x (split s))

join-slash : (cs : List Bytes) → IsSplit cs → join ([] ∷ cs) ≡ 47 ∷ join cs
unfolding join IsSplit
join-slash [] h = absurd h
join-slash (c ∷ cs) h = refl

pub join-split : (s : Bytes) → join (split s) ≡ s
unfolding split
join-split [] = unfold join in refl
join-split (x ∷ s) = elim (Bool-cases (x == 47)) [
  | inl e ↦
      rw (e, join-slash (split s) (split-IsSplit s), join-split s)
        (ap (λ y. y ∷ s) (sym ((==_iff x 47).0 e)))
  | inr e ↦ rw (e, join-put_first x (split s), join-split s) refl
]

HasNoSlash : Bytes → Type 0
HasNoSlash c = contains 47 c ≡ false

put_first-HasNoSlash :
    (x : ℕ) (cs : List Bytes)
    → (x == 47) ≡ false
    → All HasNoSlash cs
    → All HasNoSlash (put_first x cs)
unfolding HasNoSlash put_first contains
put_first-HasNoSlash x [] e h = (ground arith, _)
put_first-HasNoSlash x (c ∷ cs) e (h, hs) = (ground arith, hs)

split-HasNoSlash : (s : Bytes) → All HasNoSlash (split s)
unfolding split HasNoSlash contains
split-HasNoSlash [] = (refl, _)
split-HasNoSlash (x ∷ s) =
    if_cases (All HasNoSlash) (x == 47) (λ _. (refl, split-HasNoSlash s))
      (λ e. put_first-HasNoSlash x (split s) e (split-HasNoSlash s))

-- The chunks before, where the last of them is `**` or not.
after_double : Bool → List Chunk → List Chunk
after_double true p = Chunk.any ∷ p
after_double false p = p

Apart-Plain :
    (c : Chunk) (p : List Chunk) → Plain c → Apart p → Apart (c ∷ p) × Apart (Chunk.any ∷ c ∷ p)
unfolding Apart NotBothAny Plain
Apart-Plain Chunk.any p h k = absurd h
Apart-Plain Chunk.one [] h k = (_, (_, _))
Apart-Plain Chunk.one (d ∷ p) h k = ((_, k), (_, (_, k)))
Apart-Plain (Chunk.word w) [] h k = (_, (_, _))
Apart-Plain (Chunk.word w) (d ∷ p) h k = ((_, k), (_, (_, k)))

Apart-after_double :
    (prev : Bool) (c : Chunk) (p : List Chunk)
    → Plain c
    → Apart p
    → Apart (after_double prev (c ∷ p))
unfolding after_double
Apart-after_double true c p h k = (Apart-Plain c p h k).1
Apart-after_double false c p h k = (Apart-Plain c p h k).0

-- A chunk that is not `**`, and that passes the tests.
Plain-IsChunk :
    (c : Bytes)
    → same c double_star ≡ false
    → is_empty c ≡ false
    → (contains 42 c && not (same c star)) ≡ false
    → HasNoSlash c
    → IsChunk (chunk_of c) × Plain (chunk_of c)
unfolding chunk_of IsChunk Plain HasNoSlash
Plain-IsChunk c e h k l = elim (Bool-cases (same c star)) [
  | inl d ↦ rw (e, d) (_, _)
  | inr d ↦ rw (e, d) ((h, ground arith, l), _)
]

double_chunk :
    (prev : Bool) (c : Bytes) (p : List Chunk)
    → same c double_star ≡ true
    → prev ≡ false
    → All IsChunk p
    → Apart (Chunk.any ∷ p)
    → (IsChunk (chunk_of c) × All IsChunk p) × Apart (after_double prev (chunk_of c ∷ p))
unfolding chunk_of IsChunk after_double
double_chunk prev c p e d a b = rw (e, d) ((_, a), b)

valid_chunks-IsExpr :
    (prev : Bool) (cs : List Bytes)
    → valid_chunks prev cs ≡ true
    → All HasNoSlash cs
    → All IsChunk (map chunk_of cs) × Apart (after_double prev (map chunk_of cs))
unfolding valid_chunks after_double
valid_chunks-IsExpr true [] h k = unfold Apart in (_, _)
valid_chunks-IsExpr false [] h k = unfold Apart in (_, _)
valid_chunks-IsExpr prev (c ∷ cs) h (k, ks) = elim (Bool-cases (same c double_star)) [
  | inl e ↦
      let h' = rw e at h in
      let (a, b) = valid_chunks-IsExpr true cs (ground arith) ks in
      let p : prev ≡ false = ground arith in double_chunk prev c (map chunk_of cs) e p a b
  | inr e ↦
      let h' = rw e at h in
      let (a, b) = valid_chunks-IsExpr false cs (ground arith) ks in
      let (x, y) = Plain-IsChunk c e (ground arith) (ground arith) k in
      ((x, a), Apart-after_double prev (chunk_of c) (map chunk_of cs) y b)
]

map-text-chunk_of : (cs : List Bytes) → map text (map chunk_of cs) ≡ cs
map-text-chunk_of [] = refl
map-text-chunk_of (c ∷ cs) = rw (text-chunk_of c, map-text-chunk_of cs) refl

-- The chunks of an expression.
unfoldable pub chunks_of : Bytes → List Chunk
chunks_of e = map chunk_of (split e)

expr-chunks_of : (e : Bytes) → expr (chunks_of e) ≡ e
unfolding chunks_of expr
expr-chunks_of e = ap join (map-text-chunk_of (split e)) ∙ join-split e

pub chunks_of-IsExpr : (e : Bytes) → valid e ≡ true → IsExpr (chunks_of e)
unfolding chunks_of valid after_double
chunks_of-IsExpr e h = valid_chunks-IsExpr false (split e) (ground arith) (split-HasNoSlash e)

-- Two valid expressions intersect exactly when some key, which is a list of chunks without stars,
-- is matched by both, where `*` stands for one chunk and `**` for any number of them.
pub intersects_iff :
    (a b : Bytes)
    → valid a ≡ true
    → valid b ≡ true
    → (intersects a b ≡ true) ↔ Meet (chunks_of a) (chunks_of b)
unfolding intersects Sound Complete
intersects_iff a b h k =
    let x = expr-chunks_of a in
    let y = expr-chunks_of b in
    let i = chunks_of-IsExpr a h in
    let j = chunks_of-IsExpr b k in
    let u = length-expr (chunks_of a) i.0 in
    let v = length-expr (chunks_of b) j.0 in
    let n = length a + length b + 1 in
    (
      λ e. intersects_sound n true (chunks_of a) (chunks_of b) i j (rw (x, y) e),
      λ m.
          let fits : length (chunks_of a) + length (chunks_of b) < n =
            let p = ap length x in let q = ap length y in omega arith in
          rw (x, y) at (intersects_complete n true (chunks_of a) (chunks_of b) i j fits m),
    )
