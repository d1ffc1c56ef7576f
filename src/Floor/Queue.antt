-- ===== src/Floor/Queue.antt =====
-- crates/oxsfud/src/flr/core.rs: the waiting queue of the floor, and the set of members.
use oxlens_sfu.Base.{
  ℕ, suc, ◌+◌, ◌==◌, ltb, leb, Bool, true, false, not, ◌&&◌, ◌||◌, List, [], ◌∷◌, Option, none,
  some, length, u32, if◌then◌else◌,
}
use oxlens_sfu.Floor.Types.{UserId, Waiter, Floor}

abbrev pub not_in_queue : ℕ
not_in_queue = 254

unfoldable pub in_queue : UserId → List Waiter → Bool
in_queue u [] = false
in_queue u (w ∷ ws) = w.u == u || in_queue u ws

unfoldable pub in_q : Floor → UserId → Bool
unfolding in_queue
in_q f u = in_queue u f.queue

-- `iter().position(|w| w.u == u)`.
unfoldable pub position : UserId → List Waiter → Option ℕ
position u [] = none
position u (w ∷ ws) = elim (w.u == u) [
  | true ↦ some 0
  | false ↦ elim (position u ws) [ none ↦ none | some i ↦ some (suc i) ]
]

unfoldable pub pos : Floor → UserId → ℕ
unfolding position
pos f u = elim (position u f.queue) [ none ↦ not_in_queue | some i ↦ u32 (u32 i + 1) ]

unfoldable pub prio_in : UserId → List Waiter → ℕ
prio_in u [] = 0
prio_in u (w ∷ ws) = if w.u == u then w.p else prio_in u ws

unfoldable pub qprio : Floor → UserId → ℕ
unfolding prio_in
qprio f u = prio_in u f.queue

-- `retain(|w| w.u != u)`.
unfoldable pub without : UserId → List Waiter → List Waiter
without u [] = []
without u (w ∷ ws) = let rest = without u ws in if w.u == u then rest else w ∷ rest

unfoldable pub dequeue : Floor → UserId → Floor
unfolding without
dequeue f u = record f { queue = without u f.queue }

unfoldable pub any_pre : List Waiter → Bool
any_pre [] = false
any_pre (w ∷ ws) = w.pre || any_pre ws

unfoldable pub pre_q : Floor → Bool
unfolding any_pre
pre_q f = any_pre f.queue

unfoldable pub before : Waiter → Waiter → Bool
before w x = (w.pre && not x.pre) || ((if w.pre then x.pre else not x.pre) && ltb x.p w.p)

-- In front of the first waiter that the new one goes before, or at the end.
unfoldable pub insert : Waiter → List Waiter → List Waiter
unfolding before
insert w [] = w ∷ []
insert w (x ∷ xs) = let rest = insert w xs in if before w x then w ∷ x ∷ xs else x ∷ rest

unfoldable pub insert_q : Floor → Waiter → Floor
unfolding insert
insert_q f w = record f { queue = insert w f.queue }

-- `BTreeSet<String>`: an ascending list.
unfoldable pub contains : List UserId → UserId → Bool
contains [] u = false
contains (x ∷ xs) u = x == u || contains xs u

unfoldable pub add_member : UserId → List UserId → List UserId
add_member u [] = u ∷ []
add_member u (x ∷ xs) =
    let rest = add_member u xs in
    if ltb u x then u ∷ x ∷ xs else if u == x then x ∷ xs else x ∷ rest

unfoldable pub remove_member : UserId → List UserId → List UserId
remove_member u [] = []
remove_member u (x ∷ xs) = let rest = remove_member u xs in if x == u then rest else x ∷ rest

unfoldable pub alone : Floor → Bool
alone f = leb (length f.members) 1
