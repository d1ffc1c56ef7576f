-- ===== src/Floor/Runs.antt =====
-- crates/oxsfud/src/flr and crates/oxsfud/src/ops/floor.rs: concrete histories of a room of the
-- users 1 and 2.
use oxlens_sfu.Base.{
  ℕ, ◌≡◌, refl, ◌⊎◌, Bool, Option, true, false, List, [], ◌∷◌, ◌++◌, none, some, arith,
}
use mathlib.Core.List.{Permᴰ}
use oxlens_sfu.Floor.Types.{
  UserId, G, P, Mt, Floor, msg, get_part, new, part_of, holder, holder_prio,
}
use oxlens_sfu.Floor.Queue.{
  in_queue, in_q, position, pos, prio_in, qprio, without, dequeue, any_pre, pre_q, before, insert,
  insert_q, contains, add_member, remove_member, alone,
}
use oxlens_sfu.Floor.Participant.{
  send, enter_part, enter_r, send_e, part_a_arm, part_a, others, fan_loop, fan,
}
use oxlens_sfu.Floor.Arbiter.{
  enter_taken, idle_enter_at, idle_enter, prevoke_enter, grant_idle, arb_req_idle,
  arb_req_permitted, arb_preempt, arb_rel, arb_rtp,
}
use oxlens_sfu.Floor.Receive.{revoke3, taken_req, part_c_arm, part_c, server_rx, rtp}
use oxlens_sfu.Floor.Membership.{
  ready, perm_down, perm_up, away, ws_pub_select, ws_pub_away, ws_leave, ws_join,
}
use oxlens_sfu.Floor.Timers.{t1, t2, t3, t7, t20, t8, t21, t9, armed_server, armed_participant}
use oxlens_sfu.Floor.Events.{Event, fire, fire_due, step, run}
use oxlens_sfu.Floor.Invariant.{Inv}
use oxlens_sfu.Floor.Reach.{step-Inv, new-Inv, run-Inv, run-exclusive, run-idle_rests}
use oxlens_sfu.Floor.Media.{effects}
use oxlens_sfu.Floor.Slot as Slot
use oxlens_sfu.Floor.Slot.{
  Effect, Slot, IsSlot, Distinct, free_slot, apply, apply_all, apply-IsSlot, apply_comm,
  apply_all-Permᴰ,
}
use oxlens_sfu.Floor.Numbering.{number_fx, effects-slot}
use oxlens_sfu.Floor.Acked.{first_of, ack_of, server_rx-acked}
use oxlens_sfu.Floor.Channel.{dc_in, dc_in-request}
use oxlens_sfu.Wire.DataChannel as DataChannel
use oxlens_sfu.Floor.Leave.{ws_leave-holder}
use oxlens_sfu.Floor.Delivery.{to_mbcp-delivered, to_mbcp, to_kind}
use oxlens_sfu.Wire.Mbcp.Message as Message
use oxlens_sfu.Wire.Mbcp.Build as Build
use oxlens_sfu.Wire.Mbcp.Fields as Fields

abbrev asks : UserId → ℕ → Event
asks u p = Event.rx u (msg Mt.request none p 0) true 0

abbrev lets_go : UserId → Event
lets_go u = Event.rx u (msg Mt.release none 0 0) true 0

-- Two users join and choose the room for publishing, and user 1 asks for the floor.
abbrev meeting : List Event
meeting =
    Event.joined 1 true ∷ Event.joined 2 true ∷ Event.selected 1 ∷ Event.selected 2 ∷ asks 1 5 ∷ []

-- User 1 lets the floor go.
abbrev silence : List Event
silence = meeting ++ (lets_go 1 ∷ [])

-- User 2 waits, sends media all the same, gets the floor, lets it go, and asks again.
abbrev stray : List Event
stray = meeting ++ (asks 2 5 ∷ Event.media 2 ∷ lets_go 1 ∷ lets_go 2 ∷ asks 2 5 ∷ [])

abbrev met : Floor
met = run (new 10 30) meeting

abbrev strayed : Floor
strayed = run (new 10 30) stray

run-exclusive_example : (met.g ≡ G.taken) × (met.speaker ≡ some 1) × (◌≡◌ {A = ℕ} 1 1)
unfolding new part_of holder holder_prio in_queue in_q position pos prio_in qprio without dequeue
    any_pre pre_q before insert insert_q contains add_member remove_member alone send enter_part
    enter_r send_e part_a_arm part_a others fan_loop fan enter_taken idle_enter_at idle_enter
    prevoke_enter grant_idle arb_req_idle arb_req_permitted arb_preempt arb_rel arb_rtp revoke3
    taken_req part_c_arm part_c server_rx rtp ready perm_down perm_up away ws_pub_select ws_pub_away
    ws_leave ws_join t1 t2 t3 t7 t20 t8 t21 t9 armed_server armed_participant fire fire_due step run
run-exclusive_example = run-exclusive 10 30 meeting met 1 1 refl refl refl refl refl

abbrev silent : Floor
silent = run (new 10 30) silence

run-idle_rests_example :
    (silent.queue ≡ [])
    × ((part_of silent 1 ≡ some P.np_idle) ⊎ (part_of silent 1 ≡ some P.np_sends))
    × ((get_part silent 1).g_taken ≡ false)
unfolding new part_of holder holder_prio in_queue in_q position pos prio_in qprio without dequeue
    any_pre pre_q before insert insert_q contains add_member remove_member alone send enter_part
    enter_r send_e part_a_arm part_a others fan_loop fan enter_taken idle_enter_at idle_enter
    prevoke_enter grant_idle arb_req_idle arb_req_permitted arb_preempt arb_rel arb_rtp revoke3
    taken_req part_c_arm part_c server_rx rtp ready perm_down perm_up away ws_pub_select ws_pub_away
    ws_leave ws_join t1 t2 t3 t7 t20 t8 t21 t9 armed_server armed_participant fire fire_due step run
run-idle_rests_example = run-idle_rests 10 30 silence silent 1 refl refl refl

step-Inv_example : Inv (step met (lets_go 1)).floor
step-Inv_example = step-Inv met (lets_go 1) (run-Inv (new 10 30) meeting (new-Inv 10 30))

-- The two effects of this history, the second of which comes first.
abbrev late_effects : List Effect
late_effects = Effect.release 1 ∷ Effect.bind 1 1 ∷ []

effects-slot_example : Slot.speaker (apply_all free_slot late_effects) ≡ holder silent
unfolding new part_of holder holder_prio in_queue in_q position pos prio_in qprio without dequeue
    any_pre pre_q before insert insert_q contains add_member remove_member alone send enter_part
    enter_r send_e part_a_arm part_a others fan_loop fan enter_taken idle_enter_at idle_enter
    prevoke_enter grant_idle arb_req_idle arb_req_permitted arb_preempt arb_rel arb_rtp revoke3
    taken_req part_c_arm part_c server_rx rtp ready perm_down perm_up away ws_pub_select ws_pub_away
    ws_leave ws_join t1 t2 t3 t7 t20 t8 t21 t9 armed_server armed_participant fire fire_due step run
    effects number_fx
effects-slot_example = effects-slot 10 30 silence late_effects (Permᴰ.swap refl refl)

abbrev room_name : List ℕ
room_name = 114 ∷ 49 ∷ []

to_mbcp-delivered_example :
    (b : List ℕ) × (Message.encode (Build.taken (2 ∷ []) 3 room_name) ≡ some b)
    × (Message.decode b ≡ some (Build.taken (2 ∷ []) 3 room_name))
    × (Build.get (Build.taken (2 ∷ []) 3 room_name) Fields.room ≡ some room_name)
    × (Build.seq (Build.taken (2 ∷ []) 3 room_name) ≡ some 3)
unfolding to_mbcp to_kind
to_mbcp-delivered_example =
    to_mbcp-delivered (λ u. u ∷ []) (record { t = Mt.taken; a = some 2; n = 0; d = 0; q = 3 })
      room_name none (Build.taken (2 ∷ []) 3 room_name) (omega arith) (omega arith) _ refl

ws_leave-holder_example :
    (holder (ws_leave strayed 2).floor ≡ some 2)
    × (contains (ws_leave strayed 2).floor.members 2 ≡ false)
unfolding new part_of holder holder_prio in_queue in_q position pos prio_in qprio without dequeue
    any_pre pre_q before insert insert_q contains add_member remove_member alone send enter_part
    enter_r send_e part_a_arm part_a others fan_loop fan enter_taken idle_enter_at idle_enter
    prevoke_enter grant_idle arb_req_idle arb_req_permitted arb_preempt arb_rel arb_rtp revoke3
    taken_req part_c_arm part_c server_rx rtp ready perm_down perm_up away ws_pub_select ws_pub_away
    ws_leave ws_join t1 t2 t3 t7 t20 t8 t21 t9 armed_server armed_participant fire fire_due step run
ws_leave-holder_example =
    ws_leave-holder strayed 2 (record { u = 2; p = 5; pre = false }) [] refl refl refl

server_rx-acked_example :
    first_of (server_rx met 1 (msg Mt.release none 0 0) true 0).out ≡ some (ack_of 1)
unfolding new part_of holder holder_prio in_queue in_q position pos prio_in qprio without dequeue
    any_pre pre_q before insert insert_q contains add_member remove_member alone send enter_part
    enter_r send_e part_a_arm part_a others fan_loop fan enter_taken idle_enter_at idle_enter
    prevoke_enter grant_idle arb_req_idle arb_req_permitted arb_preempt arb_rel arb_rtp revoke3
    taken_req part_c_arm part_c server_rx rtp ready perm_down perm_up away ws_pub_select ws_pub_away
    ws_leave ws_join t1 t2 t3 t7 t20 t8 t21 t9 armed_server armed_participant fire fire_due step run
server_rx-acked_example = server_rx-acked met 1 (msg Mt.release none 0 0) true 0 refl refl

-- User 1 speaks, and users 2 and 3 wait.
abbrev waiting : Floor
waiting = record met {
  queue = record { u = 2; p = 5; pre = false } ∷ record { u = 3; p = 4; pre = false } ∷ [];
}

abbrev only_room : List ℕ → Option Bool
only_room name = some false

dc_in-request_example :
    (b : List ℕ) × (c : List ℕ) × (Message.encode (Build.request room_name (some 7)) ≡ some b)
    × (DataChannel.encode 1 b ≡ some c)
    × (dc_in only_room (c ++ (9 ∷ [])) ≡ some (msg Mt.request none 7 0))
dc_in-request_example = dc_in-request only_room room_name (9 ∷ []) (some 7) false (omega arith) refl
