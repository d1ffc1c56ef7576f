-- ===== src/Mesh/Session/Drain.antt =====
-- crates/oxmesh/src/session.rs: an outbox to which nothing more is pushed.
use oxlens_sfu.Base.{
  ℕ, zero, suc, ◌+◌, ◌≤◌, ◌<◌, ◌≡◌, refl, sym, ap, List, [], ◌∷◌, Option, none, some, length, ltb,
  arith, if_cases,
}
use mathlib.Core.Path.{subst}
use oxlens_sfu.Mesh.Wire.Cursor.{Bytes}
use oxlens_sfu.Mesh.Wire.Message.{Lane}
use oxlens_sfu.Mesh.Session.Outbox.{
  Queues, Outbox, set_queue, front, pop_front, write_batch, taken, fill, depth, pop_as, pop,
}
use oxlens_sfu.Mesh.Session.Order.{Act, after_act, after}

-- A frame was taken, and one less is left; or there was none.
OneLess : Queues → Option (Lane × Bytes × Queues) → Type 0
OneLess q none = depth q ≡ 0
OneLess q (some (l, f, q')) = depth q ≡ suc (depth q')

front-OneLess :
    (q : Queues) (a b c d : List Bytes)
    → q Lane.control ≡ a
    → q Lane.declare ≡ b
    → q Lane.request ≡ c
    → q Lane.data_lane ≡ d
    → OneLess q (
        front Lane.control a q
          (front Lane.declare b q (front Lane.request c q (front Lane.data_lane d q none))))
unfolding OneLess front depth set_queue
front-OneLess q (f ∷ a) b c d e₁ e₂ e₃ e₄ = omega (arith, ap length e₁)
front-OneLess q [] (f ∷ b) c d e₁ e₂ e₃ e₄ = omega (arith, ap length e₂)
front-OneLess q [] [] (f ∷ c) d e₁ e₂ e₃ e₄ = omega (arith, ap length e₃)
front-OneLess q [] [] [] (f ∷ d) e₁ e₂ e₃ e₄ = omega (arith, ap length e₄)
front-OneLess q [] [] [] [] e₁ e₂ e₃ e₄ =
    omega (arith, ap length e₁, ap length e₂, ap length e₃, ap length e₄)

pop_front-OneLess : (q : Queues) → OneLess q (pop_front q)
unfolding pop_front
pop_front-OneLess q = front-OneLess q _ _ _ _ refl refl refl refl

taken_bound :
    (size : ℕ) (q : Queues) (o : Option (Lane × Bytes × Queues))
    (next : ℕ → Queues → Queues × List (Lane × Bytes))
    → OneLess q o
    → ((s : ℕ) (p : Queues) → depth (next s p).0 ≤ depth p)
    → (depth (taken size q o next).0 ≤ depth q)
      × (0 < depth q → depth (taken size q o next).0 < depth q)
unfolding taken OneLess
taken_bound size q none next h ih = (omega arith, λ k. omega arith)
taken_bound size q (some (l, f, q')) next h ih =
    let i = ih (size + length f) q' in (omega arith, λ k. omega arith)

fill_bound : (n size : ℕ) (q : Queues) → depth (fill n size q).0 ≤ depth q
unfolding fill
fill_bound zero size q = omega arith
fill_bound (suc n) size q =
    if_cases (λ (r : Queues × List (Lane × Bytes)). depth r.0 ≤ depth q) (ltb size write_batch)
      (λ _. (taken_bound size q (pop_front q) (fill n) (pop_front-OneLess q) (fill_bound n)).0)
      (λ _. omega arith)

fill_less : (n : ℕ) (q : Queues) → 0 < n → 0 < depth q → depth (fill n 0 q).0 < depth q
unfolding fill
fill_less zero q h k = absurd (omega arith)
fill_less (suc n) q h k =
    (taken_bound 0 q (pop_front q) (fill n) (pop_front-OneLess q) (fill_bound n)).1 k

pop-less :
    (o : Outbox)
    → o.closing ≡ none
    → (depth (pop o).0.q ≤ depth o.q × (0 < depth o.q → depth (pop o).0.q < depth o.q))
      × ((pop o).0.closing ≡ none)
unfolding pop pop_as
pop-less o h =
    subst
      (λ c.
        (depth (pop_as c o).0.q ≤ depth o.q × (0 < depth o.q → depth (pop_as c o).0.q < depth o.q))
        × ((pop_as c o).0.closing ≡ none))
      (sym h) ((fill_bound (depth o.q) 0 o.q, λ k. fill_less (depth o.q) o.q k k), refl)

-- The taking of so many batches.
abbrev pub writes : ℕ → List Act
writes zero = []
writes (suc n) = Act.write ∷ writes n

depth-writes :
    (n : ℕ) (o : Outbox) → o.closing ≡ none → depth o.q ≤ n → depth (after (writes n) o).q ≡ 0
unfolding after after_act
depth-writes zero o h k = omega arith
depth-writes (suc n) o h k =
    let (less, still) = pop-less o h in
    let s = less.1 in depth-writes n (pop o).0 still (ground arith)

no_depth : (l : Lane) (q : Queues) → depth q ≡ 0 → length (q l) ≡ 0
unfolding depth
no_depth Lane.control q h = omega arith
no_depth Lane.declare q h = omega arith
no_depth Lane.request q h = omega arith
no_depth Lane.data_lane q h = omega arith

no_length : (xs : List Bytes) → length xs ≡ 0 → xs ≡ []
no_length [] h = refl
no_length (x ∷ xs) h = absurd (omega arith)

-- An outbox that is not closing, to which nothing more is pushed, is empty on every lane after as
-- many batches as it has frames, or more.
pub writes_drain :
    (n : ℕ) (o : Outbox) (l : Lane)
    → o.closing ≡ none
    → depth o.q ≤ n
    → (after (writes n) o).q l ≡ []
writes_drain n o l h k = no_length _ (no_depth l _ (depth-writes n o h k))
