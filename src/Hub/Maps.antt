-- ===== src/Hub/Maps.antt =====
-- Maps and sets in the order of their keys, which are numbers.
use oxlens_sfu.Base.{
  ℕ, ◌==◌, ◌≡◌, refl, Bool, true, false, ◌||◌, List, [], ◌∷◌, Option, none, some, ltb,
  if◌then◌else◌, arith,
}

module _ {ℓ} {A : Type ℓ} where
  unfoldable pub lookup : ℕ → List (ℕ × A) → Option A
  lookup k [] = none
  lookup k ((j, a) ∷ m) = if j == k then some a else lookup k m

  unfoldable pub insert : ℕ → A → List (ℕ × A) → List (ℕ × A)
  insert k a [] = (k, a) ∷ []
  insert k a ((j, b) ∷ m) =
      if j == k then (k, a) ∷ m else if ltb k j then (k, a) ∷ (j, b) ∷ m else (j, b) ∷ insert k a m

  unfoldable pub remove : ℕ → List (ℕ × A) → List (ℕ × A)
  remove k [] = []
  remove k ((j, b) ∷ m) = let rest = remove k m in if j == k then rest else (j, b) ∷ rest

  pub lookup-insert :
      (k j : ℕ) (a : A) (m : List (ℕ × A))
      → lookup j (insert k a m) ≡ (if k == j then some a else lookup j m)
  unfolding lookup insert
  lookup-insert k j a [] = refl
  lookup-insert k j a ((i, b) ∷ m) = ground (arith, lookup-insert k j a m)

  pub lookup-remove :
      (k j : ℕ) (m : List (ℕ × A)) → lookup j (remove k m) ≡ (if k == j then none else lookup j m)
  unfolding lookup remove
  lookup-remove k j [] = ground arith
  lookup-remove k j ((i, b) ∷ m) = ground (arith, lookup-remove k j m)

unfoldable pub add : ℕ → List ℕ → List ℕ
add k [] = k ∷ []
add k (j ∷ s) = if j == k then j ∷ s else if ltb k j then k ∷ j ∷ s else j ∷ add k s

unfoldable pub without : ℕ → List ℕ → List ℕ
without k [] = []
without k (j ∷ s) = let rest = without k s in if j == k then rest else j ∷ rest

unfoldable pub member : ℕ → List ℕ → Bool
member k [] = false
member k (j ∷ s) = j == k || member k s

pub member-add : (k j : ℕ) (s : List ℕ) → member j (add k s) ≡ (k == j || member j s)
unfolding member add
member-add k j [] = refl
member-add k j (i ∷ s) = ground (arith, member-add k j s)

pub member-without : (k j : ℕ) (s : List ℕ) → (k == j) ≡ true → member j (without k s) ≡ false
unfolding member without
member-without k j [] h = refl
member-without k j (i ∷ s) h = ground (arith, member-without k j s h)

pub member-without_other :
    (k j : ℕ) (s : List ℕ) → member j s ≡ false → member j (without k s) ≡ false
unfolding member without
member-without_other k j [] h = refl
member-without_other k j (i ∷ s) h = ground (arith, member-without_other k j s)
