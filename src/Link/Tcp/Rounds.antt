-- ===== src/Link/Tcp/Rounds.antt =====
-- crates/oxsfud/src/link/tcp.rs: the rounds of the loop that takes frames off a buffer.
use oxlens_sfu.Base.{
  ℕ, zero, suc, ◌<◌, ◌≤◌, ◌==◌, ◌≡◌, refl, false, List, [], ◌∷◌, Option, none, some, length, take,
  drop, ltb, from_be16, if◌then◌else◌, arith, Bool-cases, if_cases, inl, inr,
}
use oxlens_sfu.Link.Tcp.{Bytes, next_loop}

-- The frames at the front of some bytes, and the rest.
unfoldable pub split : ℕ → Bytes → Bytes × List Bytes
split zero b = (b, [])
split (suc k) [] = ([], [])
split (suc k) (x ∷ []) = (x ∷ [], [])
split (suc k) (x ∷ y ∷ r) =
    let n = from_be16 x y in
    let p = split k (drop n r) in
    if ltb (length r) n then (x ∷ y ∷ r, []) else (p.0, if n == 0 then p.1 else take n r ∷ p.1)

pub drop_shorter : (n : ℕ) (b : Bytes) → length (drop n b) ≤ length b
drop_shorter zero b = omega arith
drop_shorter (suc n) [] = omega arith
drop_shorter (suc n) (x ∷ b) = omega (arith, drop_shorter n b)

-- As many rounds as there are bytes are enough.
pub split_fuel : (k m : ℕ) (b : Bytes) → length b ≤ k → length b ≤ m → split k b ≡ split m b
unfolding split
split_fuel zero zero b h j = refl
split_fuel zero (suc m) [] h j = refl
split_fuel zero (suc m) (x ∷ b) h j = absurd (omega arith)
split_fuel (suc k) zero [] h j = refl
split_fuel (suc k) zero (x ∷ b) h j = absurd (omega arith)
split_fuel (suc k) (suc m) [] h j = refl
split_fuel (suc k) (suc m) (x ∷ []) h j = refl
split_fuel (suc k) (suc m) (x ∷ y ∷ r) h j =
    let s = drop_shorter (from_be16 x y) r in
    rw (split_fuel k m (drop (from_be16 x y) r) (omega arith) (omega arith)) refl

unfoldable pub after : (Bytes → Bytes × List Bytes) → Bytes × Option Bytes → Bytes × List Bytes
after g (b, none) = (b, [])
after g (b, some f) = ((g b).0, f ∷ (g b).1)

-- One round, by the length that it reads.
split-round :
    (n k m x y : ℕ) (r : Bytes)
    → split k r ≡ after (split m) (next_loop k r)
    → split k (drop n r) ≡ split m (drop n r)
    → (if ltb (length r) n then (x ∷ y ∷ r, []) else (
      (split k (drop n r)).0,
      (if n == 0 then (split k (drop n r)).1 else take n r ∷ (split k (drop n r)).1),
    ))
      ≡ after (split m) (
          if ltb (length r) n
          then (x ∷ y ∷ r, none)
          else if n == 0
          then next_loop k r
          else (drop n r, some (take n r)))
unfolding after
split-round zero k m x y r ih f = let e : ltb (length r) 0 ≡ false = ground arith in rw e ih
split-round (suc n) k m x y r ih f = elim (Bool-cases (ltb (length r) (suc n))) [
  | inl e ↦ rw e refl
  | inr e ↦ let z : (suc n == 0) ≡ false = ground arith in rw (e, f, z) refl
]

pub split-next_loop :
    (k m : ℕ) (b : Bytes)
    → length b ≤ k
    → length b ≤ m
    → split k b ≡ after (split m) (next_loop k b)
unfolding split next_loop after
split-next_loop zero m b h j = refl
split-next_loop (suc k) m [] h j = refl
split-next_loop (suc k) m (x ∷ []) h j = refl
split-next_loop (suc k) m (x ∷ y ∷ r) h j =
    let s = drop_shorter (from_be16 x y) r in
    split-round (from_be16 x y) k m x y r (split-next_loop k m r (omega arith) (omega arith))
      (split_fuel k m (drop (from_be16 x y) r) (omega arith) (omega arith))

-- A frame is taken off the buffer.
unfoldable pub Taken : Bytes → Bytes × Option Bytes → Type 0
Taken b (c, none) = Unit {0}
Taken b (c, some f) = length c < length b

shorter-Taken :
    (a b : Bytes) (p : Bytes × Option Bytes) → length a ≤ length b → Taken a p → Taken b p
unfolding Taken
shorter-Taken a b (c, none) h t = tt
shorter-Taken a b (c, some f) h t = omega arith

pub next_loop-Taken : (k : ℕ) (b : Bytes) → Taken b (next_loop k b)
unfolding next_loop Taken
next_loop-Taken zero b = tt
next_loop-Taken (suc k) [] = tt
next_loop-Taken (suc k) (x ∷ []) = tt
next_loop-Taken (suc k) (x ∷ y ∷ r) =
    if_cases (Taken (x ∷ y ∷ r)) (ltb (length r) (from_be16 x y)) (λ _. tt)
      (λ _.
        if_cases (Taken (x ∷ y ∷ r)) (from_be16 x y == 0)
          (λ _. shorter-Taken r (x ∷ y ∷ r) (next_loop k r) (omega arith) (next_loop-Taken k r))
          (λ _. omega (arith, drop_shorter (from_be16 x y) r)))
