-- ===== src/Floor/Timers.antt =====
-- crates/oxsfud/src/flr/core.rs: the timers of the floor and of its participants.
use oxlens_sfu.Base.{
  ℕ, ◌+◌, ltb, leb, Bool, true, false, not, ◌&&◌, ◌||◌, List, [], ◌∷◌, ◌++◌, Option, none, some,
  u32, if◌then◌else◌,
}
use oxlens_sfu.Floor.Types.{
  UserId, P, Mt, Part, Floor, Run, TimerName, msg, mark, start, get_part, part_of, holder,
  or_no_user, is_idle, is_taken, is_prevoke,
}
use oxlens_sfu.Floor.Participant.{set_part, send, part_a, fan}
use oxlens_sfu.Floor.Arbiter.{idle_enter, prevoke_enter, set_prev}
use oxlens_sfu.Floor.Receive.{is_np_taken}
use oxlens_sfu.Floor.Causes

-- How often a message is repeated (crates/oxsig/src/floor.rs).
abbrev pub max_c7 : ℕ
max_c7 = 10

abbrev pub max_c8 : ℕ
max_c8 = 3

abbrev pub max_c20 : ℕ
max_c20 = 3

abbrev pub max_c21 : ℕ
max_c21 = 3

unfoldable pub t1 : Floor → Run
t1 f =
    let r = start f in
    idle_enter (
      if is_taken f.g
      then set_prev f.speaker (mark "FLR.S.G.TAKEN.T1" r)
      else set_prev f.revoking (mark "FLR.S.G.PREVOKE.T1" r))

unfoldable pub t2 : Floor → Run
t2 f =
    let u = or_no_user f.speaker in
    let r = set_part (mark "FLR.S.G.TAKEN.T2" (start f)) u (λ p. record p { retry = true }) in
    prevoke_enter r u Causes.revoke_too_long

unfoldable pub t3 : Floor → Run
t3 f = idle_enter (set_prev f.revoking (mark "FLR.S.G.PREVOKE.T3" (start f)))

unfoldable pub t7 : Floor → Run
t7 f =
    let r = mark "FLR.S.G.IDLE.T7" (start (record f { c7 = u32 (f.c7 + 1) })) in
    fan r (msg Mt.idle f.prev 0 0) none

unfoldable pub t20 : Floor → Run
t20 f =
    let r = start (record f { c20 = u32 (f.c20 + 1) }) in
    if ltb f.c20 max_c20
    then part_a (mark "FLR.S.G.TAKEN.T20" r) (or_no_user f.speaker)
        (msg Mt.granted none f.sprio f.t2_secs)
    else mark "FLR.S.G.TAKEN.T20_exhaust" r

abbrev pub is_part_prevoke : Option P → Bool
is_part_prevoke (some P.prevoke) = true
is_part_prevoke _ = false

abbrev pub is_np_sends : Option P → Bool
is_np_sends (some P.np_sends) = true
is_np_sends _ = false

unfoldable pub t8 : Floor → UserId → Run
t8 f u =
    let r = set_part (start f) u (λ p. record p { c8 = u32 (p.c8 + 1) }) in
    if is_part_prevoke (part_of f u)
    then send (mark "FLR.S.P.PREVOKE.T8" r) u Mt.revoke none (get_part f u).rcause 0
    else send (mark "FLR.S.P.NPSENDS.T8" r) u Mt.revoke none Causes.revoke_no_permission 0

unfoldable pub t21 : Floor → UserId → Run
t21 f u =
    let r = set_part (start f) u (λ p. record p { c21 = u32 (p.c21 + 1) }) in
    if ltb (get_part f u).c21 max_c21
    then send (mark "FLR.S.P.NP_TAKEN.T21" r) u Mt.taken (holder f) 0 0
    else mark "FLR.S.P.NP_TAKEN.T21_exhaust" r

unfoldable pub t9 : Floor → UserId → Run
t9 f u = set_part (mark "FLR.S.T9.expire" (start f)) u (λ p. record p { retry = false })

-- `if b { on.push(t) }`.
abbrev pub push_if : Bool → TimerName → List TimerName → List TimerName
push_if b t on = if b then on ++ (t ∷ []) else on

unfoldable pub armed_server : Floor → List TimerName
armed_server f =
    let on = push_if (is_taken f.g || is_prevoke f.g) TimerName.t1 [] in
    let on2 = push_if (is_taken f.g && f.first_rtp) TimerName.t2 on in
    let on3 = push_if (is_prevoke f.g) TimerName.t3 on2 in
    let on7 = push_if (is_idle f.g && f.idle_bcast && ltb f.c7 max_c7) TimerName.t7 on3 in
    push_if (is_taken f.g && f.succ && not f.rtp_seen && leb f.c20 max_c20) TimerName.t20 on7

armed_part : Option Part → List TimerName
armed_part none = []
armed_part (some p) =
    let on =
      push_if ((is_part_prevoke p.part || is_np_sends p.part) && ltb p.c8 max_c8) TimerName.t8 [] in
    let on9 = push_if p.retry TimerName.t9 on in
    push_if (is_np_taken p.part && leb 1 p.c21 && leb p.c21 max_c21) TimerName.t21 on9

unfoldable pub armed_participant : Floor → UserId → List TimerName
unfolding armed_part
armed_participant f u = armed_part (f.parts u)
