-- ===== src/Hub/View/Dropped.antt =====
-- crates/oxhubd/src/bus/view.rs, `on_token` and `settle`: how long a room stays where it was put.
use oxlens_sfu.Base.{
  ℕ, ◌+◌, ◌==◌, ◌≡◌, refl, ◌∙◌, Bool, true, false, not, ◌&&◌, ◌||◌, List, [], ◌∷◌, ◌++◌, some, ltb,
  if◌then◌else◌, arith,
}
use oxlens_sfu.Hub.Maps.{
  lookup, remove, member, lookup-insert, lookup-remove, member-add, member-without,
  member-without_other,
}
use oxlens_sfu.Hub.View.{
  settle_ms, View, TokenEv, Loc, Settled, Rooms, NodeSeen, on_token, on_change, on_node_put,
  on_room_put, unless, is_room_del, is_node_del, is_at, is_some, end_room, end_rooms, release,
  release_held, settle, settle_batch, settle_rooms, settle_due, room_node, room_alive, is_nil,
}

-- What comes to the view: a token, or the time to settle.
pub data Input : Type 0 where
  token : TokenEv → ℕ → Input
  settled : ℕ → Input

unfoldable pub step : View → Input → View
step v (Input.token ev now) = on_token v ev now
step v (Input.settled now) = (settle v now).0

unfoldable pub run : View → List Input → View
run v [] = v
run v (i ∷ is) = run (step v i) is

unfoldable pub spares_token : ℕ → Loc → TokenEv → Bool
spares_token room l (TokenEv.room_put r n i) = not (r == room)
spares_token room l ev = not (is_room_del room l.node l.inst ev)

-- An input that neither puts the room somewhere nor ends it where it is.
unfoldable pub spares : ℕ → Loc → Input → Bool
spares room l (Input.token ev now) = spares_token room l ev
spares room l (Input.settled now) = true

unfoldable pub all_spare : ℕ → Loc → List Input → Bool
all_spare room l [] = true
all_spare room l (i ∷ is) = spares room l i && all_spare room l is

unfoldable ends : ℕ → Loc → List TokenEv → Bool
ends room l [] = false
ends room l (e ∷ es) = is_room_del room l.node l.inst e || ends room l es

-- The room is where it was put, and nothing that is pending ends it.
unfoldable IsKept : ℕ → Loc → View → Type 0
IsKept room l v =
    (lookup room v.routing ≡ some l)
    × ((member room v.held ≡ false) × (ends room l v.pending ≡ false))

ends-unless :
    (room : ℕ) (l : Loc) (p : TokenEv → Bool) (es : List TokenEv)
    → ends room l es ≡ false
    → ends room l (unless p es) ≡ false
unfolding ends unless
ends-unless room l p [] h = refl
ends-unless room l p (e ∷ es) h = ground (arith, ends-unless room l p es)

ends-unless_own :
    (room : ℕ) (l : Loc) (es : List TokenEv)
    → ends room l (unless (is_room_del room l.node l.inst) es) ≡ false
unfolding ends unless
ends-unless_own room l [] = refl
ends-unless_own room l (e ∷ es) = ground (arith, ends-unless_own room l es)

ends-snoc :
    (room : ℕ) (l : Loc) (es : List TokenEv) (e : TokenEv)
    → ends room l es ≡ false
    → is_room_del room l.node l.inst e ≡ false
    → ends room l (es ++ e ∷ []) ≡ false
unfolding ends
ends-snoc room l [] e h k = ground arith
ends-snoc room l (x ∷ es) e h k = ground (arith, ends-snoc room l es e)

pub neither : (a : Bool) → {b : Bool} → (a || b) ≡ false → (a ≡ false) × (b ≡ false)
neither a h = ground arith

pub both : (a : Bool) → {b : Bool} → (a && b) ≡ true → (a ≡ true) × (b ≡ true)
both a h = ground arith

pub if_both :
    {A : Type 0}
    → (P : A → Type 0) → (b : Bool) → {x y : A} → (b ≡ true → P x)
    → (b ≡ false → P y)
    → P (if b then x else y)
if_both P true p q = p refl
if_both P false p q = q refl

end_room-kept :
    (room self : ℕ) (l : Loc) (cut : Bool) (e : TokenEv) (r : Rooms)
    → lookup room r.routing ≡ some l
    → member room r.held ≡ false
    → is_room_del room l.node l.inst e ≡ false
    → (lookup room (end_room self cut e r).routing ≡ some l)
      × (member room (end_room self cut e r).held ≡ false)
unfolding end_room is_room_del is_at
end_room-kept room self l cut (TokenEv.node_put n i) r h k e = (h, k)
end_room-kept room self l cut (TokenEv.node_del n i) r h k e = (h, k)
end_room-kept room self l cut (TokenEv.room_put x n i) r h k e = (h, k)
end_room-kept room self l cut (TokenEv.room_del x n i) r h k e =
    ground (arith, lookup-remove x room r.routing, member-add x room r.held)

end_rooms-kept :
    (room self : ℕ) (l : Loc) (cut : Bool) (es : List TokenEv) (r : Rooms)
    → lookup room r.routing ≡ some l
    → member room r.held ≡ false
    → ends room l es ≡ false
    → (lookup room (end_rooms self cut es r).routing ≡ some l)
      × (member room (end_rooms self cut es r).held ≡ false)
unfolding end_rooms ends
end_rooms-kept room self l cut [] r h k e = (h, k)
end_rooms-kept room self l cut (x ∷ es) r h k e =
    let (h1, k1) =
      end_room-kept room self l cut x r h k (neither (is_room_del room l.node l.inst x) e).0 in
    end_rooms-kept room self l cut es (end_room self cut x r) h1 k1
      (neither (is_room_del room l.node l.inst x) e).1

pub release-kept :
    (room self : ℕ) (nodes : List (ℕ × NodeSeen)) (rooms : List ℕ) (routing : List (ℕ × Loc))
    → member room rooms ≡ false
    → lookup room (release self nodes rooms routing).0 ≡ lookup room routing
unfolding release member
release-kept room self nodes [] routing h = refl
release-kept room self nodes (x ∷ rooms) routing h =
    let (x_no, rooms_no) = neither (x == room) h in
    release-kept room self nodes rooms
      (if room_alive self nodes (lookup x routing) then routing else remove x routing) rooms_no
    ∙ ground (arith, lookup-remove x room routing)

ends-none : (room : ℕ) (l : Loc) → ends room l [] ≡ false
unfolding ends
ends-none room l = refl

settle_rooms-IsKept :
    (room : ℕ) (l : Loc) (v : View) (batch : List TokenEv) (cut : Bool)
    → lookup room v.routing ≡ some l
    → member room v.held ≡ false
    → ends room l batch ≡ false
    → ends room l v.pending ≡ false
    → IsKept room l (settle_rooms v batch cut).0
unfolding settle_rooms release_held IsKept member
settle_rooms-IsKept room l v batch cut h k e p =
    let start : Rooms = record { routing = v.routing; held = v.held; dropped = [] } in
    let ended : Rooms = end_rooms v.self_node (is_some v.isolated) batch start in
    let (h1, k1) = end_rooms-kept room v.self_node l (is_some v.isolated) batch start h k e in
    let K : View × Settled → Type 0 = λ x. IsKept room l x.0 in
    if_both K (is_some v.isolated) (λ _. (h1, (k1, p)))
      (λ _. (release-kept room v.self_node v.nodes ended.held ended.routing k1 ∙ h1, (refl, p)))

settle_batch-IsKept :
    (room : ℕ) (l : Loc) (v : View) (now : ℕ)
    → lookup room v.routing ≡ some l
    → member room v.held ≡ false
    → ends room l v.pending ≡ false
    → IsKept room l (settle_batch v now).0
unfolding settle_batch
settle_batch-IsKept room l v now h k e =
    settle_rooms-IsKept room l _ v.pending _ h k e (ends-none room l)

settle-IsKept :
    (room : ℕ) (l : Loc) (v : View) (now : ℕ) → IsKept room l v → IsKept room l (settle v now).0
unfolding settle release_held IsKept member
settle-IsKept room l v now (h, (k, e)) =
    let same : (lookup room v.routing ≡ some l)
        × ((member room v.held ≡ false) × (ends room l v.pending ≡ false)) =
      (h, (k, e)) in
    let K : View × Settled → Type 0 = λ x. IsKept room l x.0 in
    if_both K (is_nil v.pending && (not (is_some v.isolated) && not (is_nil v.held)))
      (λ _.
        if_both K (ltb now (v.last_token_at + settle_ms)) (λ _. same)
          (λ _. (release-kept room v.self_node v.nodes v.held v.routing k ∙ h, (refl, e))))
      (λ _.
        if_both K (not (settle_due v now)) (λ _. same)
          (λ _. settle_batch-IsKept room l v now h k e))

on_token-IsKept :
    (room : ℕ) (l : Loc) (v : View) (ev : TokenEv) (now : ℕ)
    → spares_token room l ev ≡ true
    → IsKept room l v
    → IsKept room l (on_token v ev now)
unfolding on_token on_change on_node_put on_room_put spares_token IsKept is_room_del
on_token-IsKept room l v (TokenEv.node_put n i) now s (h, (k, e)) =
    (h, (k, ends-unless room l (is_node_del n i) v.pending e))
on_token-IsKept room l v (TokenEv.room_put x n i) now s (h, (k, e)) = (
  rw (lookup-insert x room (record { node = n; inst = i }) v.routing) (ground arith),
  (member-without_other x room v.held k, ends-unless room l (is_room_del x n i) v.pending e),
)
on_token-IsKept room l v (TokenEv.node_del n i) now s (h, (k, e)) =
    (h, (k, ends-snoc room l v.pending (TokenEv.node_del n i) e refl))
on_token-IsKept room l v (TokenEv.room_del x n i) now s (h, (k, e)) =
    (h, (k, ends-snoc room l v.pending (TokenEv.room_del x n i) e ground arith))

step-IsKept :
    (room : ℕ) (l : Loc) (v : View) (i : Input)
    → spares room l i ≡ true
    → IsKept room l v
    → IsKept room l (step v i)
unfolding step spares
step-IsKept room l v (Input.token ev now) s = on_token-IsKept room l v ev now s
step-IsKept room l v (Input.settled now) s = settle-IsKept room l v now

run-IsKept :
    (room : ℕ) (l : Loc) (v : View) (is : List Input)
    → all_spare room l is ≡ true
    → IsKept room l v
    → lookup room (run v is).routing ≡ some l
unfolding run all_spare IsKept
run-IsKept room l v [] s (h, _) = h
run-IsKept room l v (i ∷ is) s k =
    run-IsKept room l (step v i) is (both (spares room l i) s).1
      (step-IsKept room l v i (both (spares room l i) s).0 k)

put-IsKept :
    (room : ℕ) (l : Loc) (v : View) (now : ℕ)
    → let v' = on_token v (TokenEv.room_put room l.node l.inst) now in IsKept room l v'
unfolding on_token on_change on_room_put IsKept
put-IsKept room l v now = (
  rw (lookup-insert room room l v.routing) (ground arith),
  (member-without room room v.held (ground arith), ends-unless_own room l v.pending),
)

-- A room that was put somewhere stays there, whatever tokens of other rooms and of nodes follow and
-- whenever it is settled, for as long as it is not put again and not ended where it is; what was
-- pending against it before is of no effect.
pub room_node-run :
    (v : View) (room node inst now : ℕ) (is : List Input)
    → all_spare room (record { node = node; inst = inst }) is ≡ true
    → room_node (run (on_token v (TokenEv.room_put room node inst) now) is) room
      ≡ some (record { node = node; inst = inst })
unfolding room_node
room_node-run v room node inst now is s =
    let l : Loc = record { node = node; inst = inst } in
    run-IsKept room l (on_token v (TokenEv.room_put room node inst) now) is s
      (put-IsKept room l v now)
