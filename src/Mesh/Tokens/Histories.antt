-- ===== src/Mesh/Tokens/Histories.antt =====
-- crates/oxmesh/src/core.rs: declarations, their ends and closed sessions, one after the other.
use oxlens_sfu.Base.{
  ℕ, zero, suc, ◌+◌, ◌≡◌, ◌∙◌, ◌⊎◌, refl, sym, ap, List, [], ◌∷◌, Option, none, some, ltb, arith,
  Bool-cases, inl, inr,
}
use mathlib.Core.Option.{none-ne-some}
use mathlib.Core.Path.{subst}
use oxlens_sfu.Mesh.Wire.Cursor.{Bytes}
use oxlens_sfu.Mesh.KeyExpr.{same}
use oxlens_sfu.Mesh.SubIndex.{Owner, Name, same_owner}
use oxlens_sfu.Mesh.Tokens.{
  Tokens, no_tokens, set_count, tok_add_on, tok_add, tok_del_on, tok_del, find_decl, remove_decl,
  set_decls, declare_on, declare, undeclare_on, undeclare, drop_decls, others, close,
}
use oxlens_sfu.Mesh.Tokens.Counted.{
  count, alive, Told, Counts, one_if, tok_add_on-Told, tok_del_on-Told, suc_if, count-remove_decl,
  count-replace_decl,
}

-- The counts are those of some declarations, and the events tell which tokens have any.
Kept : Tokens → (Bytes → ℕ) → Type 0
Kept t c = Told t × Counts t c

drop_decls-Kept :
    (o : Owner) (ds : List (Name × Bytes)) (t : Tokens) (c : Bytes → ℕ)
    → Kept t (λ k. count k ds + c k)
    → Kept (drop_decls o ds t) (λ k. count k (others o ds) + c k)
unfolding Kept Counts drop_decls others count one_if tok_del
drop_decls-Kept o [] t c h = h
drop_decls-Kept o ((j, e) ∷ ds) t c (told, m) = elim (Bool-cases (same_owner o j.0)) [
  | inl s ↦
      let b =
        tok_del_on-Told (t.tok e) e t (λ k. count k ds + c k) refl told
          (λ k. let p = suc_if (same k e) (count k ds) in let q = m k in omega arith) in
      rw s (drop_decls-Kept o ds (tok_del e t) c b)
  | inr s ↦
      let (a, b) =
        drop_decls-Kept o ds t (λ k. one_if k e + c k)
          (told, λ k. let p = suc_if (same k e) (count k ds) in let q = m k in omega arith) in
      rw s (a, λ k. let p = suc_if (same k e) (count k (others o ds)) in let q = b k in omega arith)
]

tok_del_on-decls : (n : ℕ) (e : Bytes) (t : Tokens) → (tok_del_on n e t).decls ≡ t.decls
unfolding tok_del_on set_count
tok_del_on-decls zero e t = refl
tok_del_on-decls (suc zero) e t = refl
tok_del_on-decls (suc (suc n)) e t = refl

tok_add_on-decls : (n : ℕ) (e : Bytes) (t : Tokens) → (tok_add_on n e t).decls ≡ t.decls
unfolding tok_add_on set_count
tok_add_on-decls zero e t = refl
tok_add_on-decls (suc n) e t = refl

drop_decls-decls :
    (o : Owner) (ds : List (Name × Bytes)) (t : Tokens) → (drop_decls o ds t).decls ≡ t.decls
unfolding drop_decls tok_del
drop_decls-decls o [] t = refl
drop_decls-decls o ((j, e) ∷ ds) t = elim (Bool-cases (same_owner o j.0)) [
  | inl s ↦ rw s (drop_decls-decls o ds (tok_del e t) ∙ tok_del_on-decls (t.tok e) e t)
  | inr s ↦ rw s (drop_decls-decls o ds t)
]

-- The counts are those of the declarations.
IsCounted : Tokens → Type 0
IsCounted t = Kept t (λ k. count k t.decls)

-- The same, where the declarations are known.
of_decls :
    (t : Tokens) (ds : List (Name × Bytes)) → t.decls ≡ ds → Kept t (λ k. count k ds) → IsCounted t
unfolding IsCounted
of_decls t ds e h = subst (λ d. Kept t (λ k. count k d)) (sym e) h

pub data TokenChange : Type 0 where
  declares : Name → Bytes → TokenChange
  undeclares : Name → TokenChange
  closes : ℕ → TokenChange

unfoldable pub step : TokenChange → Tokens → Tokens
step (TokenChange.declares n e) t = declare n e t
step (TokenChange.undeclares n) t = undeclare n t
step (TokenChange.closes uid) t = close uid t

-- A name that is declared again is declared with the same expression.
unfoldable pub IsConstant : TokenChange → Tokens → Type 0
IsConstant (TokenChange.declares n e) t =
    (find_decl n t.decls ≡ none) ⊎ (find_decl n t.decls ≡ some e)
IsConstant _ t = Unit {0}

declare_on-IsCounted :
    (o : Option Bytes) (n : Name) (e : Bytes) (t : Tokens)
    → find_decl n t.decls ≡ o
    → (o ≡ none) ⊎ (o ≡ some e)
    → IsCounted t
    → IsCounted (declare_on o n e t)
unfolding declare_on set_decls tok_add IsCounted Kept Counts one_if count Told
declare_on-IsCounted none n e t f h (told, m) =
    let (a, b) =
      tok_add_on-Told (t.tok e) e (set_decls ((n, e) ∷ t.decls) t) (λ k. count k t.decls) refl told
        m in
    of_decls _ ((n, e) ∷ t.decls) (tok_add_on-decls (t.tok e) e _)
      (a, λ k. b k ∙ sym (suc_if (same k e) (count k t.decls)))
declare_on-IsCounted (some x) n e t f (inl h) k = absurd (none-ne-some _ (sym h))
declare_on-IsCounted (some x) n e t f (inr h) (told, m) =
    (told, λ k. m k ∙ sym (count-replace_decl n e t.decls k (f ∙ h)))

undeclare_on-IsCounted :
    (o : Option Bytes) (n : Name) (t : Tokens)
    → find_decl n t.decls ≡ o
    → IsCounted t
    → IsCounted (undeclare_on o n t)
unfolding undeclare_on set_decls tok_del IsCounted Kept Counts Told
undeclare_on-IsCounted none n t f h = h
undeclare_on-IsCounted (some e) n t f (told, m) =
    of_decls _ (remove_decl n t.decls) (tok_del_on-decls (t.tok e) e _) (
      tok_del_on-Told (t.tok e) e (set_decls (remove_decl n t.decls) t)
        (λ k. count k (remove_decl n t.decls)) refl told
        (λ k. m k ∙ count-remove_decl n e t.decls k f))

close-IsCounted : (uid : ℕ) (t : Tokens) → IsCounted t → IsCounted (close uid t)
unfolding close set_decls IsCounted Kept Counts Told
close-IsCounted uid t (told, m) =
    let (a, b) =
      drop_decls-Kept (Owner.sess uid) t.decls (set_decls (others (Owner.sess uid) t.decls) t)
        (λ k. 0) (told, λ k. let q = m k in omega arith) in
    of_decls _ (others (Owner.sess uid) t.decls) (drop_decls-decls (Owner.sess uid) t.decls _)
      (a, λ k. let q = b k in omega arith)

step-IsCounted :
    (c : TokenChange) (t : Tokens) → IsConstant c t → IsCounted t → IsCounted (step c t)
unfolding step IsConstant declare undeclare
step-IsCounted (TokenChange.declares n e) t h k =
    declare_on-IsCounted (find_decl n t.decls) n e t refl h k
step-IsCounted (TokenChange.undeclares n) t h k =
    undeclare_on-IsCounted (find_decl n t.decls) n t refl k
step-IsCounted (TokenChange.closes uid) t h k = close-IsCounted uid t k

-- The tokens after a history, whose last change stands first.
unfoldable pub tokens_after : List TokenChange → Tokens
tokens_after [] = no_tokens
tokens_after (c ∷ cs) = step c (tokens_after cs)

unfoldable pub AllConstant : List TokenChange → Type 0
AllConstant [] = Unit {0}
AllConstant (c ∷ cs) = IsConstant c (tokens_after cs) × AllConstant cs

tokens_after-IsCounted : (cs : List TokenChange) → AllConstant cs → IsCounted (tokens_after cs)
unfolding tokens_after AllConstant
tokens_after-IsCounted [] h =
    unfold no_tokens IsCounted Kept Told Counts count alive in (λ k. refl, λ k. refl)
tokens_after-IsCounted (c ∷ cs) (h, hs) =
    step-IsCounted c (tokens_after cs) h (tokens_after-IsCounted cs hs)

-- After any history from no tokens, of declarations, their ends and closed sessions, in which a
-- name that is declared again has the same expression, each token is held with as many
-- declarations as there are of it, and the events have it alive exactly when there is any.
pub tok-tokens_after :
    (cs : List TokenChange) (k : Bytes)
    → AllConstant cs
    → ((tokens_after cs).tok k ≡ count k (tokens_after cs).decls)
      × (alive (tokens_after cs).events k ≡ ltb 0 (count k (tokens_after cs).decls))
unfolding IsCounted Kept Counts Told
tok-tokens_after cs k h = let (a, b) = tokens_after-IsCounted cs h in (b k, a k ∙ ap (ltb 0) (b k))
