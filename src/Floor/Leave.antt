-- ===== src/Floor/Leave.antt =====
-- crates/oxsfud/src/flr/core.rs: `ws_leave` of a speaker who also waits in the queue.
use oxlens_sfu.Base.{◌≡◌, ◌∙◌, ap, true, false, List, ◌∷◌, none, some, arith}
use oxlens_sfu.Floor.Types.{UserId, Mt, Waiter, Floor, Run, msg, start, mark, holder, or_no_user}
use oxlens_sfu.Floor.Queue.{contains}
use oxlens_sfu.Floor.Participant.{set_part, part_a, fan}
use oxlens_sfu.Floor.Arbiter.{enter_taken, idle_enter, idle_enter_at, speaks, set_prev}
use oxlens_sfu.Floor.Membership.{away, ws_leave}
use oxlens_sfu.Floor.Framing.{Frames, part_a-Frames, fan-Frames}
use oxlens_sfu.Floor.Rooms.{contains-remove}

Frames-holder : (f f' : Floor) → Frames f f' → holder f' ≡ holder f
unfolding holder
Frames-holder f f' h = ap holder h

enter_taken-holder : (r : Run) → holder (enter_taken r).floor ≡ holder r.floor
unfolding enter_taken holder
enter_taken-holder r =
    let sp = or_no_user r.floor.speaker in
    let r1 = record (mark "FLR.S.G.TAKEN.enter" r) {
      floor = record r.floor { idle_bcast = false };
    } in
    let r2 = part_a r1 sp (msg Mt.granted none r.floor.sprio r.floor.t2_secs) in
    Frames-holder r2.floor (fan r2 (msg Mt.taken (some sp) 0 0) (some sp)).floor (fan-Frames r2 _ _)
    ∙ Frames-holder r1.floor r2.floor (part_a-Frames r1 sp _)

-- Whoever is first in the queue gets the floor.
succeeds :
    (r : Run) (w : Waiter) (rest : List Waiter)
    → r.floor.queue ≡ w ∷ rest
    → holder (idle_enter r).floor ≡ some w.u
unfolding idle_enter idle_enter_at holder
succeeds r w rest e = rw e (enter_taken-holder _)

-- A speaker who is also the first to wait, and who leaves the room, still holds the floor
-- afterwards, though no longer a member.
pub ws_leave-holder :
    (f : Floor) (u : UserId) (w : Waiter) (rest : List Waiter)
    → speaks f u ≡ true
    → f.queue ≡ w ∷ rest
    → w.u ≡ u
    → (holder (ws_leave f u).floor ≡ some u) × (contains (ws_leave f u).floor.members u ≡ false)
unfolding ws_leave away holder
ws_leave-holder f u w rest s q e =
    let r0 = set_part (mark "FLR.S.ws.leave" (start f)) u (λ p. record p { pub_room = false }) in
    let r1 = idle_enter (set_prev (some u) (mark "FLR.S.G.TAKEN.client_release" r0)) in
    rw s (
      succeeds (set_prev (some u) (mark "FLR.S.G.TAKEN.client_release" r0)) w rest q ∙ ap some e,
      ground (arith, contains-remove u r1.floor.members u),
    )
