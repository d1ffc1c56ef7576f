-- ===== src/Hub/View.antt =====
-- crates/oxhubd/src/bus/view.rs: what the gateway has seen on the bus. The names of rooms, nodes and
-- instances are numbers, in the order of the names. The last event is kept as a token; in the code
-- it is the text of it.
pub mod Dropped
pub mod Held
use oxlens_sfu.Base.{
  ℕ, ◌+◌, ◌==◌, Bool, true, false, not, ◌&&◌, ◌||◌, List, [], ◌∷◌, ◌++◌, Option, none, some, ltb,
  leb, if◌then◌else◌,
}
use oxlens_sfu.Hub.Maps.{lookup, insert, remove, add, without}

abbrev pub settle_ms : ℕ
settle_ms = 1000

pub data TokenEv : Type 0 where
  node_put : ℕ → ℕ → TokenEv
  node_del : ℕ → ℕ → TokenEv
  room_put : ℕ → ℕ → ℕ → TokenEv
  room_del : ℕ → ℕ → ℕ → TokenEv

pub record NodeSeen : Type 0 where
  pub inst : ℕ
  pub live : Bool
  pub gone_at : Option ℕ

pub record Loc : Type 0 where
  pub node : ℕ
  pub inst : ℕ

pub record LastEvent : Type 0 where
  pub at_ms : ℕ
  pub token : TokenEv

pub record View : Type 0 where
  pub self_node : ℕ
  pub self_inst : ℕ
  pub self_declared : Bool
  pub grace_ms : ℕ
  pub nodes : List (ℕ × NodeSeen)
  pub routing : List (ℕ × Loc)
  pub seen_other : Bool
  pub isolated : Option ℕ
  pub held : List ℕ
  pub pending : List TokenEv
  pub last_token_at : ℕ
  pub last_event : Option LastEvent
  pub duplicates : ℕ
  pub recovered : Bool

pub record Settled : Type 0 where
  pub dropped_rooms : List ℕ
  pub released : List ℕ
  pub isolated_now : Bool

abbrev pub nothing_settled : Settled
nothing_settled = record { dropped_rooms = []; released = []; isolated_now = false }

unfoldable pub new : ℕ → ℕ → ℕ → View
new self_node self_inst grace_ms = record {
  self_node = self_node;
  self_inst = self_inst;
  self_declared = false;
  grace_ms = grace_ms;
  nodes = [];
  routing = [];
  seen_other = false;
  isolated = none;
  held = [];
  pending = [];
  last_token_at = 0;
  last_event = none;
  duplicates = 0;
  recovered = false;
}

abbrev pub is_some : {A : Type 0} → Option A → Bool
is_some none = false
is_some (some a) = true

abbrev pub is_nil : {A : Type 0} → List A → Bool
is_nil [] = true
is_nil (x ∷ xs) = false

-- The end of a node, or of a room, as a put of the same cancels it.
unfoldable pub is_node_del : ℕ → ℕ → TokenEv → Bool
is_node_del node inst (TokenEv.node_del n i) = n == node && i == inst
is_node_del node inst _ = false

unfoldable pub is_room_del : ℕ → ℕ → ℕ → TokenEv → Bool
is_room_del room node inst (TokenEv.room_del r n i) = r == room && (n == node && i == inst)
is_room_del room node inst _ = false

unfoldable pub unless : (TokenEv → Bool) → List TokenEv → List TokenEv
unless p [] = []
unless p (e ∷ es) = let rest = unless p es in if p e then rest else e ∷ rest

unfoldable pub elsewhere : ℕ → Option Loc → Bool
elsewhere node none = false
elsewhere node (some old) = not (old.node == node)

unfoldable pub on_node_put : View → ℕ → ℕ → View
on_node_put v node inst =
    let other = not (node == v.self_node) in
    record v {
      pending = unless (is_node_del node inst) v.pending;
      seen_other = other || v.seen_other;
      isolated = (if other then none else v.isolated);
      recovered = other && is_some v.isolated || v.recovered;
      nodes = insert node (record { inst = inst; live = true; gone_at = none }) v.nodes;
    }

unfoldable pub on_room_put : View → ℕ → ℕ → ℕ → View
on_room_put v room node inst = record v {
  pending = unless (is_room_del room node inst) v.pending;
  duplicates = (if elsewhere node (lookup room v.routing) then v.duplicates + 1 else v.duplicates);
  held = without room v.held;
  routing = insert room (record { node = node; inst = inst }) v.routing;
}

unfoldable pub on_change : View → TokenEv → View
on_change v (TokenEv.node_put node inst) = on_node_put v node inst
on_change v (TokenEv.room_put room node inst) = on_room_put v room node inst
on_change v del = record v { pending = v.pending ++ del ∷ [] }

unfoldable pub on_token : View → TokenEv → ℕ → View
on_token v ev now =
    on_change
      (record v { last_token_at = now; last_event = some (record { at_ms = now; token = ev }) }) ev

unfoldable pub settle_due : View → ℕ → Bool
settle_due v now = not (is_nil v.pending) && leb (v.last_token_at + settle_ms) now

unfoldable pub has_inst : ℕ → Option NodeSeen → Bool
has_inst inst none = false
has_inst inst (some n) = n.inst == inst

-- The nodes whose end is settled, and whether another one is among them.
unfoldable pub end_nodes :
    ℕ → ℕ → List TokenEv → List (ℕ × NodeSeen) → Bool → List (ℕ × NodeSeen) × Bool
end_nodes self now [] nodes other = (nodes, other)
end_nodes self now (TokenEv.node_del node inst ∷ es) nodes other =
    if has_inst inst (lookup node nodes)
    then end_nodes self now es
        (insert node (record { inst = inst; live = false; gone_at = some now }) nodes)
        (other || not (node == self))
    else end_nodes self now es nodes other
end_nodes self now (e ∷ es) nodes other = end_nodes self now es nodes other

unfoldable pub others_live : ℕ → List (ℕ × NodeSeen) → Bool
others_live self [] = false
others_live self ((k, n) ∷ m) = not (k == self) && n.live || others_live self m

unfoldable pub is_at : ℕ → ℕ → Option Loc → Bool
is_at node inst none = false
is_at node inst (some l) = l.node == node && l.inst == inst

-- The rooms: where they are, which are held, and which were dropped.
pub record Rooms : Type 0 where
  pub routing : List (ℕ × Loc)
  pub held : List ℕ
  pub dropped : List ℕ

unfoldable pub end_room : ℕ → Bool → TokenEv → Rooms → Rooms
end_room self isolated (TokenEv.room_del room node inst) r =
    if not (is_at node inst (lookup room r.routing))
    then r
    else if isolated && not (node == self)
    then record r { held = add room r.held }
    else record r { routing = remove room r.routing; dropped = r.dropped ++ room ∷ [] }
end_room self isolated e r = r

unfoldable pub end_rooms : ℕ → Bool → List TokenEv → Rooms → Rooms
end_rooms self isolated [] r = r
end_rooms self isolated (e ∷ es) r = end_rooms self isolated es (end_room self isolated e r)

unfoldable pub node_alive : ℕ → ℕ → Option NodeSeen → Bool
node_alive self node none = node == self
node_alive self node (some n) = n.live

unfoldable pub room_alive : ℕ → List (ℕ × NodeSeen) → Option Loc → Bool
room_alive self nodes none = false
room_alive self nodes (some l) = node_alive self l.node (lookup l.node nodes)

-- The loop of `release_held`.
unfoldable pub release : ℕ → List (ℕ × NodeSeen) → List ℕ → List (ℕ × Loc) → List (ℕ × Loc) × List ℕ
release self nodes [] routing = (routing, [])
release self nodes (room ∷ rooms) routing =
    let alive = room_alive self nodes (lookup room routing) in
    let (left, dropped) =
      release self nodes rooms (if alive then routing else remove room routing) in
    (left, if alive then dropped else room ∷ dropped)

unfoldable pub release_held : View → View × List ℕ
release_held v =
    let (routing, dropped) = release v.self_node v.nodes v.held v.routing in
    (record v { routing = routing; held = [] }, dropped)

-- The tokens that are settled, when the nodes and the isolation are known.
unfoldable pub settle_rooms : View → List TokenEv → Bool → View × Settled
settle_rooms v batch isolated_now =
    let r =
      end_rooms v.self_node (is_some v.isolated) batch
        (record { routing = v.routing; held = v.held; dropped = [] }) in
    let v1 = record v { routing = r.routing; held = r.held } in
    let (v2, freed) = release_held v1 in
    if is_some v.isolated
    then (v1, record { dropped_rooms = r.dropped; released = []; isolated_now = isolated_now })
    else (
      v2,
      record { dropped_rooms = r.dropped ++ freed; released = freed; isolated_now = isolated_now },
    )

unfoldable pub settle_batch : View → ℕ → View × Settled
settle_batch v now =
    let (nodes, other) = end_nodes v.self_node now v.pending v.nodes false in
    let cut =
      v.seen_other
      && (other && (not (others_live v.self_node nodes) && not (is_some v.isolated))) in
    settle_rooms
      (record v { pending = []; nodes = nodes; isolated = (if cut then some now else v.isolated) })
      v.pending cut

unfoldable pub settle : View → ℕ → View × Settled
settle v now =
    let (v1, freed) = release_held v in
    if is_nil v.pending && (not (is_some v.isolated) && not (is_nil v.held))
    then (if ltb now (v.last_token_at + settle_ms)
        then (v, nothing_settled)
        else (v1, record { dropped_rooms = freed; released = freed; isolated_now = false }))
    else if not (settle_due v now)
    then (v, nothing_settled)
    else settle_batch v now

unfoldable pub in_grace : ℕ → ℕ → Option ℕ → Bool
in_grace grace now none = false
in_grace grace now (some g) = ltb now (g + grace)

unfoldable pub candidates_of : ℕ → ℕ → List (ℕ × NodeSeen) → List ℕ → List ℕ
candidates_of grace now [] c = c
candidates_of grace now ((k, n) ∷ m) c =
    candidates_of grace now m (if n.live || in_grace grace now n.gone_at then add k c else c)

unfoldable pub candidates : View → ℕ → List ℕ
candidates v now = candidates_of v.grace_ms now v.nodes (v.self_node ∷ [])

unfoldable pub live_of : Option NodeSeen → Bool
live_of none = false
live_of (some n) = n.live

unfoldable pub node_live : View → ℕ → Bool
node_live v node = if node == v.self_node then v.self_declared else live_of (lookup node v.nodes)

unfoldable pub room_node : View → ℕ → Option Loc
room_node v room = lookup room v.routing

unfoldable pub find_inst : ℕ → List (ℕ × Loc) → Option ℕ
find_inst inst [] = none
find_inst inst ((r, l) ∷ m) = if l.inst == inst then some l.node else find_inst inst m

unfoldable pub node_of_inst : View → ℕ → Option ℕ
node_of_inst v inst = find_inst inst v.routing
