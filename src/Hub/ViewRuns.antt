-- ===== src/Hub/ViewRuns.antt =====
-- crates/oxhubd/src/bus/view.rs: runs of the view. Node 1 is this node; room 7 is at node 2.
use oxlens_sfu.Base.{◌≡◌, refl, List, [], ◌∷◌, none, some, if◌then◌else◌}
use oxlens_sfu.Hub.Maps.{member, lookup, insert, add, remove, without}
use oxlens_sfu.Hub.View.{
  View, TokenEv, Loc, room_node, settle, on_token, on_change, on_room_put, on_node_put, new, unless,
  settle_due, settle_batch, settle_rooms, end_nodes, has_inst, elsewhere, end_room, end_rooms,
  is_at, is_node_del, is_room_del, node_alive, others_live, release, release_held, room_alive,
}
use oxlens_sfu.Hub.View.Dropped.{Input, run, step, all_spare, spares, spares_token, room_node-run}
use oxlens_sfu.Hub.View.Held.{room_node-settle, settle-isolated}

abbrev at_two : Loc
at_two = record { node = 2; inst = 20 }

-- Both other nodes and the room end.
abbrev others_end : List Input
others_end =
    Input.token (TokenEv.node_put 2 20) 0
    ∷ Input.token (TokenEv.room_put 7 2 20) 0
    ∷ Input.token (TokenEv.room_del 7 2 20) 10
    ∷ Input.token (TokenEv.node_del 2 20) 20
    ∷ []

abbrev before : View
before = run (new 1 10 30000) others_end

-- Room 8 is put and ended, and room 7 is ended at a node where it is not.
abbrev other_ends : List Input
other_ends =
    Input.settled 700
    ∷ Input.token (TokenEv.room_put 8 1 10) 800
    ∷ Input.token (TokenEv.room_del 7 3 30) 900
    ∷ Input.token (TokenEv.room_del 8 1 10) 900
    ∷ Input.settled 5000
    ∷ []

room_node-run_example :
    room_node (run (on_token before (TokenEv.room_put 7 2 20) 600) other_ends) 7 ≡ some at_two
unfolding all_spare spares spares_token is_room_del
room_node-run_example = room_node-run before 7 2 20 600 other_ends refl

room_node-settle_example :
    room_node (settle before 2000).0 7
    ≡ (if member 7 (settle before 2000).1.dropped_rooms then none else room_node before 7)
room_node-settle_example = room_node-settle before 7 2000

settle-isolated_example :
    (room_node (settle before 2000).0 7 ≡ some at_two) × ((settle before 2000).1.released ≡ [])
unfolding run step on_token on_change on_room_put on_node_put new room_node lookup insert settle
    unless settle_due settle_batch settle_rooms end_nodes has_inst add remove without elsewhere
    end_room end_rooms is_at is_node_del is_room_del node_alive others_live release release_held
    room_alive
settle-isolated_example = settle-isolated before 7 at_two 2000 refl refl refl
