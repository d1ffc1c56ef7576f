-- ===== src/Mesh/SubIndex/Latest.antt =====
-- crates/oxmesh/src/core.rs: histories of the index of subscriptions.
use oxlens_sfu.Base.{
  ℕ, ◌+◌, ◌≡◌, ◌∙◌, refl, ap, Bool, true, false, not, ◌&&◌, List, [], ◌∷◌, Option, none, some, All,
  if◌then◌else◌, arith, Bool-cases, if_cases, inl, inr,
}
use oxlens_sfu.Mesh.Wire.Cursor.{Bytes}
use oxlens_sfu.Mesh.KeyExpr.{same, concrete, intersects, valid}
use oxlens_sfu.Mesh.KeyExpr.Words.{intersects-same}
use oxlens_sfu.Mesh.SubIndex.{
  Owner, same_owner, Name, same_name, SubIndex, empty_index, remove_as, remove, insert_as, add,
  wild_match, matching,
}

-- What the sets hold of a subscription, from its expression.
exact_at : Option Bytes → Bytes → Bool
exact_at none b = false
exact_at (some e) b = concrete e && same b e

wild_at : Option Bytes → Bool
wild_at none = false
wild_at (some e) = not (concrete e)

ValidAt : Option Bytes → Type 0
ValidAt none = Unit {0}
ValidAt (some e) = valid e ≡ true

-- The sets hold just the expressions of the map.
record Indexed (ix : SubIndex) : Type 0 where
  exact : (b : Bytes) (k : Name) → ix.exact b k ≡ exact_at (ix.exprs k) b
  wild : (k : Name) → ix.wild k ≡ wild_at (ix.exprs k)
  valid_at : (k : Name) → ValidAt (ix.exprs k)

same_name-true : (j k : Name) → same_name j k ≡ true → j ≡ k
unfolding same_name same_owner
same_name-true (Owner.local a, i) (Owner.local b, j) e = ground arith
same_name-true (Owner.sess a, i) (Owner.sess b, j) e = ground arith
same_name-true (Owner.local a, i) (Owner.sess b, j) e = ground arith
same_name-true (Owner.sess a, i) (Owner.local b, j) e = ground arith

module _ (k : Name) (ix : SubIndex) (h : Indexed ix) (o : Option Bytes) (e : ix.exprs k ≡ o) where
  -- What the sets hold of any name that is the same.
  exact_same : (b : Bytes) (j : Name) → same_name j k ≡ true → ix.exact b j ≡ exact_at o b
  exact_same b j s = ap (ix.exact b) (same_name-true j k s) ∙ h.exact b k ∙ ap (λ o. exact_at o b) e

  wild_same : (j : Name) → same_name j k ≡ true → ix.wild j ≡ wild_at o
  wild_same j s = ap ix.wild (same_name-true j k s) ∙ h.wild k ∙ ap wild_at e

remove_as-Indexed :
    (k : Name) (ix : SubIndex) (o : Option Bytes)
    → ix.exprs k ≡ o
    → Indexed ix
    → Indexed (remove_as o k ix)
unfolding remove_as exact_at wild_at ValidAt
remove_as-Indexed k ix none e h = h
remove_as-Indexed k ix (some x) e h = record {
  exact = λ b j. elim (Bool-cases (same_name j k)) [
    | inl s ↦ let q = exact_same k ix h (some x) e b j s in rw s (ground arith)
    | inr s ↦ let q = h.exact b j in rw s (ground arith)
  ];
  wild = λ j. elim (Bool-cases (same_name j k)) [ inl s ↦ rw s refl | inr s ↦ rw s (h.wild j) ];
  valid_at = λ j. if_cases ValidAt (same_name j k) (λ _. _) (λ _. h.valid_at j);
}

same_name_refl : (k : Name) → same_name k k ≡ true
unfolding same_name same_owner
same_name_refl (Owner.local a, i) = ground arith
same_name_refl (Owner.sess a, i) = ground arith

remove_as-exprs :
    (k j : Name) (ix : SubIndex) (o : Option Bytes)
    → ix.exprs k ≡ o
    → (remove_as o k ix).exprs j ≡ (if same_name j k then none else ix.exprs j)
unfolding remove_as
remove_as-exprs k j ix none e = elim (Bool-cases (same_name j k)) [
  | inl s ↦ rw s (ap ix.exprs (same_name-true j k s) ∙ e)
  | inr s ↦ rw s refl
]
remove_as-exprs k j ix (some x) e = refl

insert_as-Indexed :
    (b : Bool) (k : Name) (e : Bytes) (ix : SubIndex)
    → concrete e ≡ b
    → ix.exprs k ≡ none
    → valid e ≡ true
    → Indexed ix
    → Indexed (insert_as b k e ix)
unfolding insert_as exact_at wild_at ValidAt
insert_as-Indexed true k e ix c n v h = record {
  exact = λ b j. elim (Bool-cases (same_name j k)) [
    | inl s ↦ let q = exact_same k ix h none n b j s in rw s (ground arith)
    | inr s ↦ let q = h.exact b j in rw s (ground arith)
  ];
  wild = λ j. elim (Bool-cases (same_name j k)) [
    | inl s ↦ let q = wild_same k ix h none n j s in rw s (ground arith)
    | inr s ↦ rw s (h.wild j)
  ];
  valid_at = λ j. if_cases ValidAt (same_name j k) (λ _. v) (λ _. h.valid_at j);
}
insert_as-Indexed false k e ix c n v h = record {
  exact = λ b j. elim (Bool-cases (same_name j k)) [
    | inl s ↦ let q = exact_same k ix h none n b j s in rw s (ground arith)
    | inr s ↦ rw s (h.exact b j)
  ];
  wild = λ j. elim (Bool-cases (same_name j k)) [
    | inl s ↦ rw s (ground arith)
    | inr s ↦ rw s (h.wild j)
  ];
  valid_at = λ j. if_cases ValidAt (same_name j k) (λ _. v) (λ _. h.valid_at j);
}

-- A subscription comes or goes.
pub data Change : Type 0 where
  subscribe : Name → Bytes → Change
  unsubscribe : Name → Change

unfoldable pub change : Change → SubIndex → SubIndex
change (Change.subscribe k e) ix = add k e ix
change (Change.unsubscribe k) ix = remove k ix

-- The index after a history, whose last change stands first.
unfoldable pub index_after : List Change → SubIndex
index_after [] = empty_index
index_after (c ∷ cs) = change c (index_after cs)

-- The expression that a name stands for: that of its last subscription, unless it went since.
unfoldable pub latest : List Change → Name → Option Bytes
latest [] j = none
latest (Change.subscribe k e ∷ cs) j =
    let rest = latest cs j in if same_name j k then some e else rest
latest (Change.unsubscribe k ∷ cs) j =
    let rest = latest cs j in if same_name j k then none else rest

unfoldable pub ValidChange : Change → Type 0
ValidChange (Change.subscribe k e) = valid e ≡ true
ValidChange (Change.unsubscribe k) = Unit {0}

insert_as-exprs :
    (b : Bool) (k j : Name) (e : Bytes) (ix : SubIndex)
    → (insert_as b k e ix).exprs j ≡ (if same_name j k then some e else ix.exprs j)
unfolding insert_as
insert_as-exprs true k j e ix = refl
insert_as-exprs false k j e ix = refl

remove-exprs :
    (k j : Name) (ix : SubIndex)
    → (remove k ix).exprs j ≡ (if same_name j k then none else ix.exprs j)
unfolding remove
remove-exprs k j ix = remove_as-exprs k j ix (ix.exprs k) refl

removed : (k : Name) (ix : SubIndex) → (remove k ix).exprs k ≡ none
removed k ix = remove-exprs k k ix ∙ rw (same_name_refl k) refl

remove-Indexed : (k : Name) (ix : SubIndex) → Indexed ix → Indexed (remove k ix)
unfolding remove
remove-Indexed k ix h = remove_as-Indexed k ix (ix.exprs k) refl h

index_after-Indexed : (cs : List Change) → All ValidChange cs → Indexed (index_after cs)
unfolding index_after change add ValidChange
index_after-Indexed [] h =
    unfold empty_index exact_at wild_at ValidAt in
    record { exact = λ b k. refl; wild = λ k. refl; valid_at = λ k. _ }
index_after-Indexed (Change.subscribe k e ∷ cs) (v, h) =
    insert_as-Indexed (concrete e) k e (remove k (index_after cs)) refl (removed k (index_after cs))
      v (remove-Indexed k (index_after cs) (index_after-Indexed cs h))
index_after-Indexed (Change.unsubscribe k ∷ cs) (_, h) =
    remove-Indexed k (index_after cs) (index_after-Indexed cs h)

index_after-exprs : (cs : List Change) (j : Name) → (index_after cs).exprs j ≡ latest cs j
unfolding index_after change add latest
index_after-exprs [] j = unfold empty_index in refl
index_after-exprs (Change.subscribe k e ∷ cs) j = elim (Bool-cases (same_name j k)) [
  | inl s ↦ insert_as-exprs (concrete e) k j e _ ∙ rw s refl
  | inr s ↦
      insert_as-exprs (concrete e) k j e _
      ∙ rw (remove-exprs k j (index_after cs), s) (index_after-exprs cs j)
]
index_after-exprs (Change.unsubscribe k ∷ cs) j =
    remove-exprs k j (index_after cs)
    ∙ ap (λ o. if same_name j k then none else o) (index_after-exprs cs j)

-- How often a subscription to an expression is to be found.
unfoldable pub found : Option Bytes → Bytes → ℕ
found none key = 0
found (some e) key = if intersects e key then 1 else 0

found_once :
    (o : Option Bytes) (key : Bytes)
    → ValidAt o
    → valid key ≡ true
    → concrete key ≡ true
    → (if exact_at o key then 1 else 0) + (if wild_at o && wild_match o key then 1 else 0)
      ≡ found o key
unfolding found wild_match exact_at wild_at ValidAt
found_once none key v w c = refl
found_once (some e) key v w c = elim (Bool-cases (concrete e)) [
  | inl d ↦ let i = intersects-same e key v w d c in rw (d, i) (omega arith)
  | inr d ↦ rw d (omega arith)
]

-- After any history of valid subscriptions and of their ends, a valid key without stars finds a
-- name exactly once when the expression that the name was last subscribed with, and still is,
-- intersects the key, and not at all otherwise.
pub matching-index_after :
    (cs : List Change) (key : Bytes) (k : Name)
    → All ValidChange cs
    → valid key ≡ true
    → concrete key ≡ true
    → matching (index_after cs) key k ≡ found (latest cs k) key
unfolding matching
matching-index_after cs key k h v c =
    let i = index_after-Indexed cs h in
    rw (i.exact key k, i.wild k) (found_once ((index_after cs).exprs k) key (i.valid_at k) v c)
    ∙ ap (λ o. found o key) (index_after-exprs cs k)
