-- ===== src/Floor/Arbiter.antt =====
-- crates/oxsfud/src/flr/core.rs: the arbiter, which decides who has the floor.
use oxlens_sfu.Base.{ℕ, Bool, true, false, ◌&&◌, List, [], ◌∷◌, Option, none, some, if◌then◌else◌}
use oxlens_sfu.Floor.Types.{
  UserId, G, Mt, Fx, Waiter, Floor, Run, msg, mark, push_fx, get_part, is_user, or_no_user, is_idle,
  is_taken, is_prevoke,
}
use oxlens_sfu.Floor.Queue.{alone}
use oxlens_sfu.Floor.Participant.{part_a, fan}
use oxlens_sfu.Floor.Causes

unfoldable pub enter_taken : Run → Run
enter_taken r =
    let r1 = record (mark "FLR.S.G.TAKEN.enter" r) {
      floor = record r.floor { idle_bcast = false };
    } in
    let sp = or_no_user r.floor.speaker in
    let r2 = part_a r1 sp (msg Mt.granted none r.floor.sprio r.floor.t2_secs) in
    push_fx (Fx.bind sp) (fan r2 (msg Mt.taken (some sp) 0 0) (some sp))

-- The floor falls to the first waiter, or to nobody.
unfoldable pub idle_enter_at : List Waiter → Run → Run
idle_enter_at [] r =
    let f = record r.floor {
      g = G.idle;
      speaker = none;
      revoking = none;
      first_rtp = false;
      idle_bcast = true;
      c7 = 1;
    } in
    let r1 = record (mark "FLR.S.G.IDLE.enter_empty" r) { floor = f } in
    push_fx (Fx.release r.floor.prev) (fan r1 (msg Mt.idle r.floor.prev 0 0) none)
idle_enter_at (w ∷ rest) r =
    let f = record r.floor {
      queue = rest;
      g = G.taken;
      speaker = some w.u;
      sprio = w.p;
      revoking = none;
      succ = true;
      rtp_seen = false;
      first_rtp = false;
      c20 = 1;
    } in
    enter_taken (record (mark "FLR.S.G.IDLE.enter_succession" r) { floor = f })

unfoldable pub idle_enter : Run → Run
idle_enter r = idle_enter_at r.floor.queue r

unfoldable pub prevoke_enter : Run → UserId → ℕ → Run
prevoke_enter r u cause =
    let f = record r.floor {
      g = G.prevoke;
      revoking = some u;
      rprio = r.floor.sprio;
      rcause_g = cause;
      speaker = none;
    } in
    part_a (record (mark "FLR.S.G.PREVOKE.enter" r) { floor = f }) u (msg Mt.revoke none cause 0)

unfoldable pub grant_idle : Run → UserId → ℕ → Run
grant_idle r u p =
    let f = record r.floor {
      g = G.taken;
      speaker = some u;
      sprio = p;
      succ = false;
      rtp_seen = false;
      first_rtp = false;
      c20 = 0;
    } in
    enter_taken (record (mark "FLR.S.G.IDLE.req_grant" r) { floor = f })

unfoldable pub arb_req_idle : Run → UserId → ℕ → Run
unfolding grant_idle
arb_req_idle r u p =
    if is_idle r.floor.g
    then (if alone r.floor
        then part_a (mark "FLR.S.G.IDLE.req_alone" r) u (msg Mt.deny none Causes.only_one 0)
        else if (get_part r.floor u).retry
        then part_a (mark "FLR.S.G.IDLE.req_retry_after" r) u
            (msg Mt.deny none Causes.retry_after 0)
        else grant_idle r u p)
    else mark "FLR.S.G.any.req_discard" r

-- Whether `u` speaks, and whether the floor is being revoked from `u`.
abbrev pub speaks : Floor → UserId → Bool
speaks f u = is_taken f.g && is_user f.speaker u

abbrev pub revoked : Floor → UserId → Bool
revoked f u = is_prevoke f.g && is_user f.revoking u

unfoldable pub arb_req_permitted : Run → UserId → ℕ → Run
arb_req_permitted r u t2_left =
    if speaks r.floor u
    then (let d' : ℕ = if r.floor.first_rtp then t2_left else r.floor.t2_secs in
        part_a (mark "FLR.S.G.TAKEN.req_regrant" r) u (msg Mt.granted none r.floor.sprio d'))
    else mark "FLR.S.G.any.regrant_discard" r

unfoldable pub arb_preempt : Run → UserId → ℕ → Run
arb_preempt r u p =
    if is_taken r.floor.g
    then (let w : Waiter = record { u = u; p = p; pre = true } in
        let r1 = record (mark "FLR.S.G.TAKEN.preempt" r) {
          floor = record r.floor { queue = w ∷ r.floor.queue };
        } in
        part_a (prevoke_enter r1 (or_no_user r.floor.speaker) Causes.revoke_preempted) u
          (msg Mt.qinfo none 1 p))
    else mark "FLR.S.G.PREVOKE.preempt_discard" r

abbrev pub set_prev : Option UserId → Run → Run
set_prev o r = record r { floor = record r.floor { prev = o } }

unfoldable pub arb_rel : Run → UserId → Run
arb_rel r u =
    if speaks r.floor u
    then idle_enter (set_prev (some u) (mark "FLR.S.G.TAKEN.rel_speaker" r))
    else if revoked r.floor u
    then idle_enter (set_prev (some u) (mark "FLR.S.G.PREVOKE.rel_revoked" r))
    else mark "FLR.S.G.any.rel_discard" r

unfoldable pub arb_rtp : Run → UserId → Run
arb_rtp r u =
    if speaks r.floor u
    then record (mark "FLR.S.G.TAKEN.rtp" r) {
      floor = record r.floor { rtp_seen = true; first_rtp = true };
    }
    else if revoked r.floor u
    then mark "FLR.S.G.PREVOKE.rtp" r
    else mark "FLR.S.G.any.rtp_discard" r
