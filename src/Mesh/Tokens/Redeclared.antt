-- ===== src/Mesh/Tokens/Redeclared.antt =====
-- crates/oxmesh/src/core.rs, `remote_declare`: a name that is declared again with another expression.
use oxlens_sfu.Base.{
  suc, ◌+◌, ◌≡◌, refl, sym, true, List, [], ◌∷◌, some, arith, Bool-cases, inl, inr,
}
use mathlib.Core.Option.{none-ne-some}
use oxlens_sfu.Mesh.Wire.Cursor.{Bytes}
use oxlens_sfu.Mesh.KeyExpr.{same}
use oxlens_sfu.Mesh.KeyExpr.Texts.{same_iff}
use oxlens_sfu.Mesh.SubIndex.{Name, same_name}
use oxlens_sfu.Mesh.Tokens.{Tokens, find_decl, replace_decl, set_decls, declare_on, declare}
use oxlens_sfu.Mesh.Tokens.Counted.{count, alive, one_if, suc_if}
use oxlens_sfu.Mesh.Tokens.Histories.{
  TokenChange, step, tokens_after, AllConstant, tok-tokens_after,
}

-- A declaration that is replaced counts for the new expression, and no longer for the old one.
count-replaced :
    (n : Name) (x e : Bytes) (ds : List (Name × Bytes)) (k : Bytes)
    → find_decl n ds ≡ some x
    → count k (replace_decl n e ds) + one_if k x ≡ count k ds + one_if k e
unfolding count find_decl replace_decl one_if
count-replaced n x e [] k h = absurd (none-ne-some _ h)
count-replaced n x e ((j, y) ∷ ds) k h = elim (Bool-cases (same_name n j)) [
  | inl s ↦
      let h' = rw s at h in
      let q : y ≡ x = cc in
      let a = suc_if (same k e) (count k ds) in
      let b = suc_if (same k x) (count k ds) in rw (s, q) (omega arith)
  | inr s ↦
      let i = count-replaced n x e ds k (rw s at h) in
      let a = suc_if (same k y) (count k (replace_decl n e ds)) in
      let b = suc_if (same k y) (count k ds) in rw s (omega arith)
]

one_if_self : (k : Bytes) → one_if k k ≡ 1
unfolding one_if
one_if_self k = rw ((same_iff k k).1 refl) refl

one_if_other : (k e : Bytes) → ¬ (k ≡ e) → one_if k e ≡ 0
unfolding one_if
one_if_other k e h = elim (Bool-cases (same k e)) [
  | inl s ↦ absurd (h ((same_iff k e).0 s))
  | inr s ↦ rw s refl
]

declared_again :
    (t : Tokens) (n : Name) (x e : Bytes)
    → find_decl n t.decls ≡ some x
    → declare n e t ≡ set_decls (replace_decl n e t.decls) t
unfolding declare declare_on
declared_again t n x e h = rw h refl

-- After a history as in `tok-tokens_after`, a name that has an expression is declared again with
-- another one. Then the old expression is held once more than it has declarations, so it is told
-- alive even if it has none, and the new one is held once less than it has.
pub tok-declared_again :
    (cs : List TokenChange) (n : Name) (x e : Bytes)
    → AllConstant cs
    → find_decl n (tokens_after cs).decls ≡ some x
    → ¬ (x ≡ e)
    → let t = tokens_after (TokenChange.declares n e ∷ cs) in
      (t.tok x ≡ suc (count x t.decls))
      × (count e t.decls ≡ suc (t.tok e))
      × (alive t.events x ≡ true)
unfolding tokens_after step set_decls
tok-declared_again cs n x e c f h =
    let t = tokens_after cs in
    let old = tok-tokens_after cs x c in
    let new = tok-tokens_after cs e c in
    let p = count-replaced n x e t.decls x f in
    let q = count-replaced n x e t.decls e f in
    let a = one_if_self x in
    let b = one_if_self e in
    let k = one_if_other x e h in
    let l = one_if_other e x (λ y. h (sym y)) in
    rw (declared_again t n x e f) (omega arith, omega arith, ground arith)
