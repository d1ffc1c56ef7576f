-- ===== src/Mesh/Tokens/Counted.antt =====
-- crates/oxmesh/src/core.rs: histories of the tokens of a router.
use oxlens_sfu.Base.{
  ℕ, zero, suc, ◌+◌, ◌≡◌, ◌∙◌, refl, ap, Bool, true, false, List, [], ◌∷◌, some, ltb, if◌then◌else◌,
  arith, Bool-cases, inl, inr,
}
use mathlib.Core.Option.{none-ne-some}
use oxlens_sfu.Mesh.Wire.Cursor.{Bytes}
use oxlens_sfu.Mesh.KeyExpr.{same}
use oxlens_sfu.Mesh.KeyExpr.Texts.{same_iff}
use oxlens_sfu.Mesh.SubIndex.{Name, same_name}
use oxlens_sfu.Mesh.Tokens.{
  Event, Tokens, set_count, tok_add_on, tok_del_on, find_decl, remove_decl, replace_decl,
}

-- How many declarations a token has.
unfoldable pub count : Bytes → List (Name × Bytes) → ℕ
count k [] = 0
count k ((n, e) ∷ ds) = let rest = count k ds in if same k e then suc rest else rest

-- Whether the events leave a token alive.
unfoldable pub alive : List Event → Bytes → Bool
alive [] k = false
alive (Event.put_token e ∷ es) k = let rest = alive es k in if same k e then true else rest
alive (Event.delete_token e ∷ es) k = let rest = alive es k in if same k e then false else rest

unfoldable pub Told : Tokens → Type 0
Told t = (k : Bytes) → alive t.events k ≡ ltb 0 (t.tok k)

-- The tokens of `t` have as many declarations as counted, and `c` more.
unfoldable pub Counts : Tokens → (Bytes → ℕ) → Type 0
Counts t c = (k : Bytes) → t.tok k ≡ c k

unfoldable pub one_if : Bytes → Bytes → ℕ
one_if k e = if same k e then 1 else 0

same_tok : (t : Tokens) (k e : Bytes) (n : ℕ) → t.tok e ≡ n → same k e ≡ true → t.tok k ≡ n
same_tok t k e n h s = ap t.tok ((same_iff k e).0 s) ∙ h

pub tok_add_on-Told :
    (n : ℕ) (e : Bytes) (t : Tokens) (c : Bytes → ℕ)
    → t.tok e ≡ n
    → Told t
    → Counts t c
    → Told (tok_add_on n e t) × Counts (tok_add_on n e t) (λ k. one_if k e + c k)
unfolding tok_add_on set_count alive Told Counts one_if
tok_add_on-Told zero e t c h told m = (
  λ k. elim (Bool-cases (same k e)) [ inl s ↦ rw s refl | inr s ↦ rw s (told k) ],
  λ k. elim (Bool-cases (same k e)) [
    | inl s ↦ let q = same_tok t k e zero h s in let p = m k in rw s (omega arith)
    | inr s ↦ let p = m k in rw s (omega arith)
  ],
)
tok_add_on-Told (suc n) e t c h told m = (
  λ k. elim (Bool-cases (same k e)) [
    | inl s ↦ let q = same_tok t k e (suc n) h s in let p = told k in rw s (ground arith)
    | inr s ↦ rw s (told k)
  ],
  λ k. elim (Bool-cases (same k e)) [
    | inl s ↦ let q = same_tok t k e (suc n) h s in let p = m k in rw s (omega arith)
    | inr s ↦ let p = m k in rw s (omega arith)
  ],
)

pub tok_del_on-Told :
    (n : ℕ) (e : Bytes) (t : Tokens) (c : Bytes → ℕ)
    → t.tok e ≡ n
    → Told t
    → Counts t (λ k. one_if k e + c k)
    → Told (tok_del_on n e t) × Counts (tok_del_on n e t) c
unfolding tok_del_on set_count alive Told Counts one_if
tok_del_on-Told zero e t c h told m = (
  told,
  λ k. elim (Bool-cases (same k e)) [
    | inl s ↦ let q = same_tok t k e zero h s in let p = rw s at (m k) in omega arith
    | inr s ↦ let p = rw s at (m k) in omega arith
  ],
)
tok_del_on-Told (suc zero) e t c h told m = (
  λ k. elim (Bool-cases (same k e)) [ inl s ↦ rw s refl | inr s ↦ rw s (told k) ],
  λ k. elim (Bool-cases (same k e)) [
    | inl s ↦ let q = same_tok t k e 1 h s in let p = rw s at (m k) in rw s (omega arith)
    | inr s ↦ let p = rw s at (m k) in rw s (omega arith)
  ],
)
tok_del_on-Told (suc (suc n)) e t c h told m = (
  λ k. elim (Bool-cases (same k e)) [
    | inl s ↦ let q = same_tok t k e (suc (suc n)) h s in let p = told k in rw s (ground arith)
    | inr s ↦ rw s (told k)
  ],
  λ k. elim (Bool-cases (same k e)) [
    | inl s ↦
        let q = same_tok t k e (suc (suc n)) h s in let p = rw s at (m k) in rw s (omega arith)
    | inr s ↦ let p = rw s at (m k) in rw s (omega arith)
  ],
)

pub plus_if :
    (b : Bool) (c d e : ℕ) → c ≡ e + d → (if b then suc c else c) ≡ e + (if b then suc d else d)
plus_if true c d e h = omega arith
plus_if false c d e h = h

pub suc_if : (b : Bool) (c : ℕ) → (if b then suc c else c) ≡ (if b then 1 else 0) + c
suc_if true c = omega arith
suc_if false c = omega arith

-- A removed declaration counted once.
pub count-remove_decl :
    (n : Name) (e : Bytes) (ds : List (Name × Bytes)) (k : Bytes)
    → find_decl n ds ≡ some e
    → count k ds ≡ one_if k e + count k (remove_decl n ds)
unfolding count find_decl remove_decl one_if
count-remove_decl n e [] k h = absurd (none-ne-some _ h)
count-remove_decl n e ((j, x) ∷ ds) k h = elim (Bool-cases (same_name n j)) [
  | inl s ↦ let h' = rw s at h in let q : x ≡ e = cc in rw (s, q) (suc_if (same k e) (count k ds))
  | inr s ↦
      let i = count-remove_decl n e ds k (rw s at h) in
      rw s (plus_if (same k x) (count k ds) (count k (remove_decl n ds)) (one_if k e) i)
]

-- A declaration that stays the same counts the same.
pub count-replace_decl :
    (n : Name) (e : Bytes) (ds : List (Name × Bytes)) (k : Bytes)
    → find_decl n ds ≡ some e
    → count k (replace_decl n e ds) ≡ count k ds
unfolding count find_decl replace_decl
count-replace_decl n e [] k h = refl
count-replace_decl n e ((j, x) ∷ ds) k h = elim (Bool-cases (same_name n j)) [
  | inl s ↦ let h' = rw s at h in let q : x ≡ e = cc in rw (s, q) refl
  | inr s ↦ let i = count-replace_decl n e ds k (rw s at h) in rw (s, i) refl
]
