-- ===== src/Mesh/KeyExpr/Texts.antt =====
-- crates/oxmesh/src/keyexpr.rs: the text of an expression, and its first chunk.
use oxlens_sfu.Base.{
  ◌≤◌, ◌==◌, ◌≡◌, ◌∙◌, ◌↔◌, refl, sym, ap, true, false, List, [], ◌∷◌, ◌++◌, map, All, arith,
  length, length-append, if◌then◌else◌, Bool-cases, inl, inr,
}
use mathlib.Core.Path.{subst}
use oxlens_sfu.Mesh.Wire.Cursor.{Bytes}
use oxlens_sfu.Mesh.KeyExpr.{same, is_empty, contains, star, double_star, next}
use oxlens_sfu.Mesh.KeyExpr.Matching.{Chunk}

unfoldable pub text : Chunk → Bytes
text Chunk.any = double_star
text Chunk.one = star
text (Chunk.word w) = w

unfoldable pub join : List Bytes → Bytes
join [] = []
join (c ∷ []) = c
join (c ∷ d ∷ cs) = c ++ (47 ∷ join (d ∷ cs))

unfoldable pub expr : List Chunk → Bytes
expr p = join (map text p)

-- A word has bytes, and neither stars nor slashes.
unfoldable pub IsChunk : Chunk → Type 0
IsChunk Chunk.any = Unit {0}
IsChunk Chunk.one = Unit {0}
IsChunk (Chunk.word w) = (is_empty w ≡ false) × (contains 42 w ≡ false) × (contains 47 w ≡ false)

unfoldable pub NotBothAny : Chunk → Chunk → Type 0
NotBothAny Chunk.any Chunk.any = ⊥
NotBothAny _ _ = Unit {0}

unfoldable pub Apart : List Chunk → Type 0
Apart [] = Unit {0}
Apart (c ∷ []) = Unit {0}
Apart (c ∷ d ∷ p) = NotBothAny c d × Apart (d ∷ p)

-- The chunks of a valid expression.
abbrev pub IsExpr : List Chunk → Type 0
IsExpr p = All IsChunk p × Apart p

pub IsExpr-rest : (c : Chunk) (p : List Chunk) → IsExpr (c ∷ p) → IsExpr p
unfolding Apart
IsExpr-rest c [] h = (h.0.1, _)
IsExpr-rest c (d ∷ p) h = (h.0.1, h.1.1)

same_refl : (a : Bytes) → same a a ≡ true
unfolding same
same_refl [] = refl
same_refl (x ∷ a) = let e = same_refl a in ground arith

same-true : (a b : Bytes) → same a b ≡ true → a ≡ b
unfolding same
same-true [] [] e = refl
same-true [] (y ∷ b) e = ground arith
same-true (x ∷ a) [] e = ground arith
same-true (x ∷ a) (y ∷ b) e = let i = same-true a b in ground arith

pub same_iff : (a b : Bytes) → (same a b ≡ true) ↔ (a ≡ b)
same_iff a b = (same-true a b, λ e. subst (λ c. same a c ≡ true) e (same_refl a))

next_split : (c r : Bytes) → contains 47 c ≡ false → next (c ++ (47 ∷ r)) ≡ (c, r)
unfolding next contains
next_split [] r h = refl
next_split (x ∷ c) r h =
    let i = next_split c r (ground arith) in
    let e : (x == 47) ≡ false = ground arith in rw (e, i) refl

next_all : (c : Bytes) → contains 47 c ≡ false → next c ≡ (c, [])
unfolding next contains
next_all [] h = refl
next_all (x ∷ c) h =
    let i = next_all c (ground arith) in let e : (x == 47) ≡ false = ground arith in rw (e, i) refl

-- The text of a chunk is not empty, and has no slash.
text_parts : (c : Chunk) → IsChunk c → (is_empty (text c) ≡ false) × (contains 47 (text c) ≡ false)
unfolding IsChunk text is_empty contains
text_parts Chunk.any h = (refl, refl)
text_parts Chunk.one h = (refl, refl)
text_parts (Chunk.word w) h = (h.0, h.2)

pub next-expr : (c : Chunk) (p : List Chunk) → IsChunk c → next (expr (c ∷ p)) ≡ (text c, expr p)
unfolding expr join
next-expr c [] h = next_all (text c) (text_parts c h).1
next-expr c (d ∷ p) h = next_split (text c) _ (text_parts c h).1

is_empty-append : (a b : Bytes) → is_empty a ≡ false → is_empty (a ++ b) ≡ false
unfolding is_empty
is_empty-append [] b e = ground arith
is_empty-append (x ∷ a) b e = refl

pub expr_present : (c : Chunk) (p : List Chunk) → IsChunk c → is_empty (expr (c ∷ p)) ≡ false
unfolding expr join
expr_present c [] h = (text_parts c h).0
expr_present c (d ∷ p) h = is_empty-append (text c) _ (text_parts c h).0

length_present : (s : Bytes) → is_empty s ≡ false → 1 ≤ length s
unfolding is_empty
length_present [] e = ground arith
length_present (x ∷ s) e = omega arith

pub length-expr : (p : List Chunk) → All IsChunk p → length p ≤ length (expr p)
unfolding expr join
length-expr [] h = omega arith
length-expr (c ∷ []) (h, _) = length_present (text c) (text_parts c h).0
length-expr (c ∷ d ∷ p) (h, hs) =
    let i = length-expr (d ∷ p) hs in
    let l = length_present (text c) (text_parts c h).0 in
    omega (arith, length-append (text c) (47 ∷ join (map text (d ∷ p))))

-- A word is the text of no other chunk.
pub not_star : (s w : Bytes) → contains 42 s ≡ true → contains 42 w ≡ false → same w s ≡ false
not_star s w h k = elim (Bool-cases (same w s)) [
  | inl e ↦ let d = ap (contains 42) (same-true w s e) in ground arith
  | inr e ↦ e
]

pub word_double_star : (w : Bytes) → IsChunk (Chunk.word w) → same w double_star ≡ false
unfolding IsChunk contains
word_double_star w h = not_star double_star w refl h.1

pub word_star : (w : Bytes) → IsChunk (Chunk.word w) → same w star ≡ false
unfolding IsChunk contains
word_star w h = not_star star w refl h.1

unfoldable pub chunk_of : Bytes → Chunk
chunk_of c =
    if same c double_star then Chunk.any else if same c star then Chunk.one else Chunk.word c

chunk_of-text : (c : Chunk) → IsChunk c → chunk_of (text c) ≡ c
unfolding chunk_of text same
chunk_of-text Chunk.any h = refl
chunk_of-text Chunk.one h = refl
chunk_of-text (Chunk.word w) h = rw (word_double_star w h, word_star w h) refl

pub text-chunk_of : (c : Bytes) → text (chunk_of c) ≡ c
unfolding chunk_of text
text-chunk_of c = elim (Bool-cases (same c double_star)) [
  | inl e ↦ rw e (sym ((same_iff c double_star).0 e))
  | inr e ↦ elim (Bool-cases (same c star)) [
    | inl d ↦ rw (e, d) (sym ((same_iff c star).0 d))
    | inr d ↦ rw (e, d) refl
  ]
]

text_injective : (c d : Chunk) → IsChunk c → IsChunk d → text c ≡ text d → c ≡ d
text_injective c d h k e = sym (chunk_of-text c h) ∙ ap chunk_of e ∙ chunk_of-text d k

pub expr_absent : is_empty (expr []) ≡ true
unfolding expr join is_empty
expr_absent = refl

pub expr_injective : (p q : List Chunk) → All IsChunk p → All IsChunk q → expr p ≡ expr q → p ≡ q
expr_injective [] [] h k e = refl
expr_injective [] (d ∷ q) h (k, ks) e =
    let a = ap is_empty e in
    let b = expr_present d q k in let z = expr_absent in absurd (ground arith)
expr_injective (c ∷ p) [] (h, hs) k e =
    let a = ap is_empty e in
    let b = expr_present c p h in let z = expr_absent in absurd (ground arith)
expr_injective (c ∷ p) (d ∷ q) (h, hs) (k, ks) e =
    let n = sym (next-expr c p h) ∙ ap next e ∙ next-expr d q k in
    let i = expr_injective p q hs ks (ap (λ (x : Bytes × Bytes). x.1) n) in
    let j = text_injective c d h k (ap (λ (x : Bytes × Bytes). x.0) n) in rw (i, j) refl
