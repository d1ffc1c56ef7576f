-- ===== src/Floor/Participant.antt =====
-- crates/oxsfud/src/flr/core.rs: one participant's half of the machine.
use Prim.Native.String.{String}
use oxlens_sfu.Base.{
  ℕ, ◌+◌, ◌%◌, ◌==◌, Bool, true, false, ◌&&◌, List, [], ◌∷◌, ◌++◌, Option, none, some,
  if◌then◌else◌,
}
use oxlens_sfu.Floor.Types.{
  UserId, P, Mt, Msg, Part, Floor, Run, msg, mark, get_part, part_of, is_user, seq_wrap,
}

-- `*self.p(u) = c(self.p(u))`, where `p` makes a missing entry.
abbrev pub update_part : Floor → UserId → (Part → Part) → Floor
update_part f u c = record f { parts = λ v. if v == u then some (c (get_part f u)) else f.parts v }

abbrev pub set_part : Run → UserId → (Part → Part) → Run
set_part r u c = record r { floor = update_part r.floor u c }

-- The messages that carry a sequence number.
abbrev pub is_numbered : Mt → Bool
is_numbered Mt.taken = true
is_numbered Mt.idle = true
is_numbered _ = false

abbrev pub next_seq : ℕ → ℕ
next_seq s = (s + 1) % seq_wrap

unfoldable pub send : Run → UserId → Mt → Option UserId → ℕ → ℕ → Run
send r u t a n d =
    let seqd = is_numbered t in
    let bump = seqd && d == 0 in
    let seq' = if bump then next_seq r.floor.seq else r.floor.seq in
    let q' = if bump then seq' else if seqd then d else 0 in
    let m' : Msg = record { t = t; a = a; n = n; d = if seqd then 0 else d; q = q' } in
    record r {
      floor = record r.floor { seq = seq' };
      out = r.out ++ (record { to = u; m = m' } ∷ []);
    }

unfoldable pub enter_part : P → Part → Part
enter_part P.np_idle p = record p { g_taken = false; c21 = 0; part = some P.np_idle }
enter_part P.np_taken p = record p { g_taken = true; c21 = 1; part = some P.np_taken }
enter_part P.permitted p = record p { released = false; c21 = 0; part = some P.permitted }
enter_part P.prevoke p = record p { c8 = 1; c21 = 0; part = some P.prevoke }
enter_part P.np_sends p = record p { c8 = 1; c21 = 0; part = some P.np_sends }
enter_part P.releasing p = record p { c8 = 1; c21 = 0; part = some P.releasing }

enter_label : P → String
enter_label P.np_idle = "FLR.S.P.NP_IDLE.enter"
enter_label P.np_taken = "FLR.S.P.NP_TAKEN.enter"
enter_label P.permitted = "FLR.S.P.PERMITTED.enter"
enter_label P.prevoke = "FLR.S.P.PREVOKE.enter"
enter_label _ = "FLR.S.P.NPSENDS.enter"

unfoldable pub enter_r : Run → UserId → P → Run
unfolding enter_part enter_label
enter_r r u to = set_part (mark (enter_label to) r) u (enter_part to)

unfoldable pub send_e : Run → UserId → P → Msg → Run
unfolding enter_r send
send_e r u to m = send (enter_r r u to) u m.t m.a m.n m.d

-- The arms of `part_a`, by the kind of the event and the participant's state.
unfoldable pub part_a_arm : Mt → Option P → Run → UserId → Msg → Run
unfolding send send_e enter_r
part_a_arm Mt.qinfo _ r u ev = send (mark "FLR.S.P.any.a_QINFO" r) u Mt.qinfo none ev.n ev.d
part_a_arm Mt.deny _ r u ev = send (mark "FLR.S.P.any.a_DENY" r) u Mt.deny none ev.n 0
part_a_arm Mt.granted (some P.np_idle) r u ev =
    send_e (mark "FLR.S.P.NP_IDLE.a_GRANTED" r) u P.permitted (msg Mt.granted none ev.n ev.d)
part_a_arm Mt.taken (some P.np_idle) r u ev =
    send_e (mark "FLR.S.P.NP_IDLE.a_TAKEN" r) u P.np_taken (msg Mt.taken ev.a 0 ev.q)
part_a_arm Mt.idle (some P.np_idle) r u ev =
    send (mark "FLR.S.P.NP_IDLE.a_IDLE" r) u Mt.idle ev.a 0 ev.q
part_a_arm _ (some P.np_idle) r u ev = mark "FLR.S.P.NP_IDLE.a_other" r
part_a_arm Mt.granted (some P.np_taken) r u ev =
    send_e (mark "FLR.S.P.NP_TAKEN.a_GRANTED" r) u P.permitted (msg Mt.granted none ev.n ev.d)
part_a_arm Mt.taken (some P.np_taken) r u ev =
    send (set_part (mark "FLR.S.P.NP_TAKEN.a_TAKEN" r) u (λ p. record p { c21 = 1 })) u Mt.taken
      ev.a 0 ev.q
part_a_arm Mt.idle (some P.np_taken) r u ev =
    send_e (mark "FLR.S.P.NP_TAKEN.a_IDLE" r) u P.np_idle (msg Mt.idle ev.a 0 ev.q)
part_a_arm _ (some P.np_taken) r u ev = mark "FLR.S.P.NP_TAKEN.a_other" r
part_a_arm Mt.granted (some P.permitted) r u ev =
    send (mark "FLR.S.P.PERMITTED.a_GRANTED" r) u Mt.granted none ev.n ev.d
part_a_arm Mt.idle (some P.permitted) r u ev =
    enter_r (mark "FLR.S.P.PERMITTED.a_IDLE" r) u P.np_idle
part_a_arm Mt.taken (some P.permitted) r u ev =
    send_e (mark "FLR.S.P.PERMITTED.a_TAKEN" r) u P.np_taken (msg Mt.taken ev.a 0 ev.q)
part_a_arm Mt.revoke (some P.permitted) r u ev =
    send_e (set_part (mark "FLR.S.P.PERMITTED.a_REVOKE" r) u (λ p. record p { rcause = ev.n })) u
      P.prevoke (msg Mt.revoke none ev.n 0)
part_a_arm _ (some P.permitted) r u ev = mark "FLR.S.P.PERMITTED.a_other" r
part_a_arm Mt.idle (some P.prevoke) r u ev =
    send_e (mark "FLR.S.P.PREVOKE.a_IDLE" r) u P.np_idle (msg Mt.idle ev.a 0 ev.q)
part_a_arm Mt.taken (some P.prevoke) r u ev =
    send_e (mark "FLR.S.P.PREVOKE.a_TAKEN" r) u P.np_taken (msg Mt.taken ev.a 0 ev.q)
part_a_arm _ (some P.prevoke) r u ev = mark "FLR.S.P.PREVOKE.a_other" r
part_a_arm _ (some P.releasing) r u ev = mark "FLR.S.P.RELEASING.a_any" r
part_a_arm Mt.idle _ r u ev =
    set_part (mark "FLR.S.P.NPSENDS.a_IDLE" r) u (λ p. record p { g_taken = false })
part_a_arm Mt.taken _ r u ev =
    set_part (mark "FLR.S.P.NPSENDS.a_TAKEN" r) u (λ p. record p { g_taken = true })
part_a_arm _ _ r u ev = mark "FLR.S.P.NPSENDS.a_other" r

unfoldable pub part_a : Run → UserId → Msg → Run
unfolding part_of
part_a r u ev = part_a_arm ev.t (part_of r.floor u) r u ev

-- The members that a broadcast reaches.
unfoldable pub others : Option UserId → List UserId → List UserId
others skip [] = []
others skip (x ∷ xs) = let rest = others skip xs in if is_user skip x then rest else x ∷ rest

unfoldable pub fan_loop : List UserId → Msg → Run → Run
fan_loop [] ev r = r
fan_loop (u ∷ us) ev r = fan_loop us ev (part_a r u ev)

unfoldable pub fan : Run → Msg → Option UserId → Run
unfolding others
fan r ev skip =
    let rest = others skip r.floor.members in
    let seq' = next_seq r.floor.seq in
    if is_numbered ev.t
    then fan_loop rest (record ev { q = seq' }) (record r { floor = record r.floor { seq = seq' } })
    else fan_loop rest ev r
