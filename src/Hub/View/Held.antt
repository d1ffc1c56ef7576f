-- ===== src/Hub/View/Held.antt =====
-- crates/oxhubd/src/bus/view.rs, `settle`: where the rooms are after it, and when the node is isolated.
use oxlens_sfu.Base.{
  ℕ, ◌+◌, ◌==◌, ◌≡◌, refl, Bool, true, false, not, ◌&&◌, ◌||◌, List, [], ◌∷◌, ◌++◌, none, some, ltb,
  if◌then◌else◌, arith,
}
use oxlens_sfu.Hub.Maps.{lookup, remove, member, lookup-remove}
use oxlens_sfu.Hub.View.{
  settle_ms, View, TokenEv, Loc, Settled, Rooms, NodeSeen, is_at, is_some, is_nil, end_room,
  end_rooms, release, release_held, settle, settle_batch, settle_rooms, settle_due, room_node,
  nothing_settled,
}
use oxlens_sfu.Hub.View.Dropped.{if_both}

-- The rooms of other nodes stay when the node is isolated.
end_room-held :
    (room self : ℕ) (l : Loc) (e : TokenEv) (r : Rooms)
    → (l.node == self) ≡ false
    → lookup room r.routing ≡ some l
    → lookup room (end_room self true e r).routing ≡ some l
unfolding end_room is_at
end_room-held room self l (TokenEv.node_put n i) r o h = h
end_room-held room self l (TokenEv.node_del n i) r o h = h
end_room-held room self l (TokenEv.room_put x n i) r o h = h
end_room-held room self l (TokenEv.room_del x n i) r o h =
    ground (arith, lookup-remove x room r.routing)

end_rooms-held :
    (room self : ℕ) (l : Loc) (es : List TokenEv) (r : Rooms)
    → (l.node == self) ≡ false
    → lookup room r.routing ≡ some l
    → lookup room (end_rooms self true es r).routing ≡ some l
unfolding end_rooms
end_rooms-held room self l [] r o h = h
end_rooms-held room self l (e ∷ es) r o h =
    end_rooms-held room self l es (end_room self true e r) o (end_room-held room self l e r o h)

member-append : (x : ℕ) (a b : List ℕ) → member x (a ++ b) ≡ (member x a || member x b)
unfolding member
member-append x [] b = refl
member-append x (y ∷ a) b = ground (arith, member-append x a b)

-- The rooms that are told as dropped are those that are taken off the map.
unfoldable Told : ℕ → List (ℕ × Loc) → List ℕ → List (ℕ × Loc) → Type 0
Told x before dropped after = lookup x after ≡ (if member x dropped then none else lookup x before)

Told-same : (x : ℕ) (m : List (ℕ × Loc)) → Told x m [] m
unfolding Told member
Told-same x m = refl

end_room-Told :
    (x self : ℕ) (cut : Bool) (before : List (ℕ × Loc)) (e : TokenEv) (r : Rooms)
    → Told x before r.dropped r.routing
    → Told x before (end_room self cut e r).dropped (end_room self cut e r).routing
unfolding end_room Told member
end_room-Told x self cut before (TokenEv.node_put n i) r h = h
end_room-Told x self cut before (TokenEv.node_del n i) r h = h
end_room-Told x self cut before (TokenEv.room_put y n i) r h = h
end_room-Told x self cut before (TokenEv.room_del y n i) r h =
    ground (arith, lookup-remove y x r.routing, member-append x r.dropped (y ∷ []))

end_rooms-Told :
    (x self : ℕ) (cut : Bool) (before : List (ℕ × Loc)) (es : List TokenEv) (r : Rooms)
    → Told x before r.dropped r.routing
    → Told x before (end_rooms self cut es r).dropped (end_rooms self cut es r).routing
unfolding end_rooms
end_rooms-Told x self cut before [] r h = h
end_rooms-Told x self cut before (e ∷ es) r h =
    end_rooms-Told x self cut before es (end_room self cut e r)
      (end_room-Told x self cut before e r h)

release-Told :
    (x self : ℕ) (nodes : List (ℕ × NodeSeen)) (rooms : List ℕ) (routing : List (ℕ × Loc))
    → Told x routing (release self nodes rooms routing).1 (release self nodes rooms routing).0
unfolding release Told member
release-Told x self nodes [] routing = refl
release-Told x self nodes (y ∷ rooms) routing = ground (
  arith,
  release-Told x self nodes rooms routing,
  release-Told x self nodes rooms (remove y routing),
  lookup-remove y x routing,
)

Told-append :
    (x : ℕ) (first second third : List (ℕ × Loc)) (c d : List ℕ)
    → Told x first c second
    → Told x second d third
    → Told x first (c ++ d) third
unfolding Told
Told-append x first second third c d h k = ground (arith, member-append x c d)

unfoldable IsTold : ℕ → View → View × Settled → Type 0
IsTold x v (v', out) = Told x v.routing out.dropped_rooms v'.routing

settle_rooms-Told :
    (x : ℕ) (v : View) (batch : List TokenEv) (cut : Bool) → IsTold x v (settle_rooms v batch cut)
unfolding settle_rooms release_held IsTold
settle_rooms-Told x v batch cut =
    let start : Rooms = record { routing = v.routing; held = v.held; dropped = [] } in
    let ended : Rooms = end_rooms v.self_node (is_some v.isolated) batch start in
    let told : Told x v.routing ended.dropped ended.routing =
      end_rooms-Told x v.self_node (is_some v.isolated) v.routing batch start
        (Told-same x v.routing) in
    if_both (IsTold x v) (is_some v.isolated) (λ _. told)
      (λ _.
        Told-append x v.routing ended.routing _ ended.dropped _ told
          (release-Told x v.self_node v.nodes ended.held ended.routing))

settle_batch-Told : (x : ℕ) (v : View) (now : ℕ) → IsTold x v (settle_batch v now)
unfolding settle_batch IsTold
settle_batch-Told x v now = settle_rooms-Told x _ v.pending _

settle-IsTold : (x : ℕ) (v : View) (now : ℕ) → IsTold x v (settle v now)
unfolding settle release_held IsTold Told
settle-IsTold x v now =
    let same : IsTold x v (v, nothing_settled) = Told-same x v.routing in
    if_both (IsTold x v) (is_nil v.pending && (not (is_some v.isolated) && not (is_nil v.held)))
      (λ _.
        if_both (IsTold x v) (ltb now (v.last_token_at + settle_ms)) (λ _. same)
          (λ _. release-Told x v.self_node v.nodes v.held v.routing))
      (λ _.
        if_both (IsTold x v) (not (settle_due v now)) (λ _. same) (λ _. settle_batch-Told x v now))

-- After `settle`, a room is nowhere when it is among those that are told as dropped, and else it is
-- where it was.
pub room_node-settle :
    (v : View) (room now : ℕ)
    → room_node (settle v now).0 room
      ≡ (if member room (settle v now).1.dropped_rooms then none else room_node v room)
unfolding room_node IsTold Told
room_node-settle v room now = settle-IsTold room v now

-- What an isolated node keeps.
unfoldable IsHeld : ℕ → Loc → View × Settled → Type 0
IsHeld room l (v, out) =
    is_some v.isolated ≡ true → (lookup room v.routing ≡ some l) × (out.released ≡ [])

settle_rooms-IsHeld :
    (room : ℕ) (l : Loc) (v : View) (batch : List TokenEv) (cut : Bool)
    → (l.node == v.self_node) ≡ false
    → lookup room v.routing ≡ some l
    → IsHeld room l (settle_rooms v batch cut)
unfolding settle_rooms release_held IsHeld
settle_rooms-IsHeld room l v batch cut o h =
    let start : Rooms = record { routing = v.routing; held = v.held; dropped = [] } in
    if_both (IsHeld room l) (is_some v.isolated)
      (λ i _. (rw (i) (end_rooms-held room v.self_node l batch start o h), refl))
      (λ i j. ground arith)

settle_batch-IsHeld :
    (room : ℕ) (l : Loc) (v : View) (now : ℕ)
    → (l.node == v.self_node) ≡ false
    → lookup room v.routing ≡ some l
    → IsHeld room l (settle_batch v now)
unfolding settle_batch
settle_batch-IsHeld room l v now o h = settle_rooms-IsHeld room l _ v.pending _ o h

settle-IsHeld :
    (room : ℕ) (l : Loc) (v : View) (now : ℕ)
    → (l.node == v.self_node) ≡ false
    → lookup room v.routing ≡ some l
    → IsHeld room l (settle v now)
unfolding settle release_held IsHeld
settle-IsHeld room l v now o h =
    if_both (IsHeld room l) (is_nil v.pending && (not (is_some v.isolated) && not (is_nil v.held)))
      (λ c.
        if_both (IsHeld room l) (ltb now (v.last_token_at + settle_ms)) (λ _ _. (h, refl))
          (λ _ j. ground arith))
      (λ _.
        if_both (IsHeld room l) (not (settle_due v now)) (λ _ _. (h, refl))
          (λ _. settle_batch-IsHeld room l v now o h))

-- When a node is isolated after `settle`, each room that was at another node is still where it was,
-- and no held room was released.
pub settle-isolated :
    (v : View) (room : ℕ) (l : Loc) (now : ℕ)
    → (l.node == v.self_node) ≡ false
    → room_node v room ≡ some l
    → is_some (settle v now).0.isolated ≡ true
    → (room_node (settle v now).0 room ≡ some l) × ((settle v now).1.released ≡ [])
unfolding room_node IsHeld
settle-isolated v room l now o h i = settle-IsHeld room l v now o h i
