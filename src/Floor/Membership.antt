-- ===== src/Floor/Membership.antt =====
-- crates/oxsfud/src/flr/core.rs: readiness, permission, and the events of the signalling channel.
use oxlens_sfu.Base.{Bool, true, false, Option, none, some, if◌then◌else◌}
use oxlens_sfu.Floor.Types.{UserId, P, Mt, Part, Floor, Run, msg, mark, start, holder, is_user}
use oxlens_sfu.Floor.Queue.{in_q, add_member, remove_member}
use oxlens_sfu.Floor.Participant.{set_part, send, part_a}
use oxlens_sfu.Floor.Arbiter.{idle_enter, prevoke_enter, speaks, revoked, set_prev}
use oxlens_sfu.Floor.Receive.{drop_waiter}
use oxlens_sfu.Floor.Causes

abbrev pub has_user : Option UserId → Bool
has_user none = false
has_user (some u) = true

unfoldable pub ready : Floor → UserId → Run
ready f u =
    let h = holder f in
    let r = start f in
    if is_user h u
    then mark "FLR.S.P.join.self" r
    else if has_user h
    then send (mark "FLR.S.P.join.taken" r) u Mt.taken h 0 0
    else send (mark "FLR.S.P.join.idle" r) u Mt.idle f.prev 0 0

unfoldable pub perm_down : Floor → UserId → Run
perm_down f u =
    let r = set_part (start f) u (λ p. record p { perm = false }) in
    if speaks f u
    then prevoke_enter (mark "FLR.S.perm.speaker" r) u Causes.revoke_no_permission
    else if in_q f u
    then part_a (drop_waiter (mark "FLR.S.perm.queued" r) u) u
        (msg Mt.deny none Causes.no_permission 0)
    else mark "FLR.S.perm.other" r

unfoldable pub perm_up : Floor → UserId → Run
perm_up f u = set_part (mark "FLR.S.perm.up" (start f)) u (λ p. record p { perm = true })

unfoldable pub away : Run → UserId → Run
away r u =
    if speaks r.floor u
    then idle_enter (set_prev (some u) (mark "FLR.S.G.TAKEN.client_release" r))
    else if revoked r.floor u
    then mark "FLR.S.G.PREVOKE.client_release" r
    else if in_q r.floor u
    then drop_waiter (mark "FLR.S.away.queued" r) u
    else mark "FLR.S.away.other" r

unfoldable pub ws_pub_select : Floor → UserId → Run
ws_pub_select f u =
    set_part (mark "FLR.S.ws.pub_select" (start f)) u (λ p. record p { pub_room = true })

unfoldable pub ws_pub_away : Floor → UserId → Run
ws_pub_away f u =
    away (set_part (mark "FLR.S.ws.pub_away" (start f)) u (λ p. record p { pub_room = false })) u

unfoldable pub ws_leave : Floor → UserId → Run
ws_leave f u =
    let r = set_part (mark "FLR.S.ws.leave" (start f)) u (λ p. record p { pub_room = false }) in
    let r1 = away r u in
    let r2 = record r1 { floor = record r1.floor { members = remove_member u r1.floor.members } } in
    set_part r2 u (λ p. record p { retry = false; part = some P.releasing })

-- The record that a newcomer gets.
abbrev pub newcomer : Bool → Bool → Part → Part
newcomer taken perm p = record p {
  part = some (if taken then P.np_taken else P.np_idle);
  g_taken = taken;
  pub_room = false;
  perm = perm;
  retry = false;
  released = false;
  rcause = 0;
}

unfoldable pub ws_join : Floor → UserId → Bool → Run
ws_join f u perm =
    let r = start f in
    let r1 =
      if revoked f u
      then idle_enter (set_prev f.revoking (mark "FLR.S.ws.join_revoking" r))
      else mark "FLR.S.ws.join" r in
    let r2 = record r1 { floor = record r1.floor { members = add_member u r1.floor.members } } in
    set_part r2 u (newcomer (has_user (holder r2.floor)) perm)
