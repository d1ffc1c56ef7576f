-- ===== src/Floor/Order.antt =====
-- crates/oxsfud/src/flr/core.rs: the order of the waiting queue.
use oxlens_sfu.Base.{◌==◌, ◌≡◌, refl, true, false, List, [], ◌∷◌, arith, if_cases}
use oxlens_sfu.Floor.Types.{UserId, Waiter, Floor}
use oxlens_sfu.Floor.Queue.{in_queue, in_q, without, dequeue, before, insert, insert_q}

-- None of the waiters goes before `x`.
abbrev pub Yields : Waiter → List Waiter → Type 0
Yields x [] = Unit {0}
Yields x (w ∷ ws) = (before w x ≡ false) × Yields x ws

-- None goes before one in front of it.
abbrev pub Sorted : List Waiter → Type 0
Sorted [] = Unit {0}
Sorted (x ∷ xs) = Yields x xs × Sorted xs

before_trans : (a b c : Waiter) → before a b ≡ true → before c b ≡ false → before c a ≡ false
unfolding before
before_trans a b c h k = ground arith

Yields-trans : (a b : Waiter) (ws : List Waiter) → before a b ≡ true → Yields b ws → Yields a ws
Yields-trans a b [] h k = _
Yields-trans a b (w ∷ ws) h (k, l) = (before_trans a b w h k, Yields-trans a b ws h l)

before_asym : (a b : Waiter) → before a b ≡ true → before b a ≡ false
unfolding before
before_asym a b h = ground arith

Yields-insert :
    (x w : Waiter) (ws : List Waiter) → before w x ≡ false → Yields x ws → Yields x (insert w ws)
unfolding insert
Yields-insert x w [] h k = (h, _)
Yields-insert x w (y ∷ ys) h (k, l) =
    if_cases (Yields x) (before w y) (λ _. (h, (k, l))) (λ _. (k, Yields-insert x w ys h l))

insert-Sorted : (w : Waiter) (ws : List Waiter) → Sorted ws → Sorted (insert w ws)
unfolding insert
insert-Sorted w [] s = (_, _)
insert-Sorted w (y ∷ ys) (k, s) =
    if_cases Sorted (before w y) (λ e. ((before_asym w y e, Yields-trans w y ys e k), (k, s)))
      (λ e. (Yields-insert y w ys e k, insert-Sorted w ys s))

without-Yields :
    (x : Waiter) (u : UserId) (ws : List Waiter) → Yields x ws → Yields x (without u ws)
unfolding without
without-Yields x u [] k = _
without-Yields x u (w ∷ ws) (k, l) =
    if_cases (Yields x) (w.u == u) (λ _. without-Yields x u ws l)
      (λ _. (k, without-Yields x u ws l))

without-Sorted : (u : UserId) (ws : List Waiter) → Sorted ws → Sorted (without u ws)
unfolding without
without-Sorted u [] s = _
without-Sorted u (w ∷ ws) (k, s) =
    if_cases Sorted (w.u == u) (λ _. without-Sorted u ws s)
      (λ _. (without-Yields w u ws k, without-Sorted u ws s))

without-absent : (u : UserId) (ws : List Waiter) → in_queue u ws ≡ false → without u ws ≡ ws
unfolding without in_queue
without-absent u [] h = refl
without-absent u (w ∷ ws) h = ground (arith, without-absent u ws)

without-insert :
    (w : Waiter) (ws : List Waiter) → in_queue w.u ws ≡ false → without w.u (insert w ws) ≡ ws
unfolding insert without in_queue
without-insert w [] h = ground arith
without-insert w (y ∷ ys) h = ground (arith, without-insert w ys, without-absent w.u ys)

-- A user who joins a sorted queue, in which they are not yet, leaves it sorted and the others in
-- their order, so they come after all of the same rank; and a user who goes leaves it sorted.
pub insert_q-Sorted :
    (f : Floor) (w : Waiter) (u : UserId)
    → Sorted f.queue
    → in_q f w.u ≡ false
    → Sorted (insert_q f w).queue
      × ((dequeue (insert_q f w) w.u).queue ≡ f.queue)
      × Sorted (dequeue f u).queue
unfolding insert_q dequeue in_q
insert_q-Sorted f w u s h =
    (insert-Sorted w f.queue s, without-insert w f.queue h, without-Sorted u f.queue s)
