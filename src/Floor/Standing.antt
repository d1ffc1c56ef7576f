-- ===== src/Floor/Standing.antt =====
-- crates/oxsfud/src/flr/core.rs: where each participant stands while the floor is idle, taken or
-- being revoked, and how a broadcast brings all of them there.
use oxlens_sfu.Base.{
  ◌==◌, ◌≡◌, refl, Bool, true, false, not, ◌⊎◌, List, [], ◌∷◌, Option, none, some, inl, inr, arith,
  Bool-cases,
}
use oxlens_sfu.Floor.Types.{UserId, G, P, Mt, Msg, Part, Run, msg, get_part, is_user}
use oxlens_sfu.Floor.Queue.{contains}
use oxlens_sfu.Floor.Participant.{part_a, part_a_arm, send_e, enter_r, fan, fan_loop, others}
use oxlens_sfu.Floor.Framing.{part_a-other}

-- What a member's record may be in each state of the floor. The flag tells whether the member is
-- the speaker; only the speaker is permitted, and only while the floor is taken.
abbrev pub ok_part : G → Bool → Option P → Bool → Bool
ok_part G.idle s (some P.np_idle) gt = not gt
ok_part G.idle s (some P.np_sends) gt = not gt
ok_part G.idle s _ gt = false
ok_part G.taken s (some P.np_idle) gt = not gt
ok_part G.taken s (some P.permitted) gt = s
ok_part G.prevoke s (some P.np_idle) gt = not gt
ok_part G.prevoke s (some P.permitted) gt = false
ok_part _ s none gt = false
ok_part _ s (some P.releasing) gt = false
ok_part _ s (some _) gt = true

-- What holds of a member in every state of the floor.
abbrev pub fits : Part → Bool
fits p = ok_part G.taken true p.part p.g_taken

-- Neither speaking nor told that somebody speaks.
abbrev pub rests : Part → Bool
rests p = ok_part G.idle false p.part p.g_taken

abbrev hears_at : Option P → Bool
hears_at (some P.np_taken) = true
hears_at (some P.np_sends) = true
hears_at _ = false

abbrev pub hears : Part → Bool
hears p = hears_at p.part

part_a_arm-fits :
    (t : Mt) (p : Part) (r : Run) (u : UserId) (ev : Msg)
    → get_part r.floor u ≡ p
    → fits p ≡ true
    → fits (get_part (part_a_arm t p.part r u ev).floor u) ≡ true
unfolding part_a_arm send_e enter_r
part_a_arm-fits t p r u ev e h = ground arith

pub part_a-fits :
    (r : Run) (u : UserId) (ev : Msg)
    → fits (get_part r.floor u) ≡ true
    → fits (get_part (part_a r u ev).floor u) ≡ true
unfolding part_a
part_a-fits r u ev h = part_a_arm-fits ev.t (get_part r.floor u) r u ev refl h

part_a_arm-rests :
    (t : Mt) (p : Part) (r : Run) (u : UserId) (ev : Msg)
    → t ≡ Mt.idle
    → get_part r.floor u ≡ p
    → fits p ≡ true
    → rests (get_part (part_a_arm t p.part r u ev).floor u) ≡ true
unfolding part_a_arm send_e enter_r
part_a_arm-rests t p r u ev k e h = ground arith

part_a_arm-hears :
    (t : Mt) (p : Part) (r : Run) (u : UserId) (ev : Msg)
    → t ≡ Mt.taken
    → get_part r.floor u ≡ p
    → fits p ≡ true
    → hears (get_part (part_a_arm t p.part r u ev).floor u) ≡ true
unfolding part_a_arm send_e enter_r
part_a_arm-hears t p r u ev k e h = ground arith

part_a-rests :
    (r : Run) (u : UserId) (ev : Msg)
    → ev.t ≡ Mt.idle
    → fits (get_part r.floor u) ≡ true
    → rests (get_part (part_a r u ev).floor u) ≡ true
unfolding part_a
part_a-rests r u ev e h = part_a_arm-rests ev.t (get_part r.floor u) r u ev e refl h

part_a-hears :
    (r : Run) (u : UserId) (ev : Msg)
    → ev.t ≡ Mt.taken
    → fits (get_part r.floor u) ≡ true
    → hears (get_part (part_a r u ev).floor u) ≡ true
unfolding part_a
part_a-hears r u ev e h = part_a_arm-hears ev.t (get_part r.floor u) r u ev e refl h

-- A broadcast that brings every record that fits into `A` brings all that it reaches there, and
-- `A` is kept by the rounds that follow.
module _ (ev : Msg) (A : Part → Bool) (weak : (p : Part) → A p ≡ true → fits p ≡ true)
    (makes : (r : Run) (u : UserId)
      → fits (get_part r.floor u) ≡ true
      → A (get_part (part_a r u ev).floor u) ≡ true) where
  fan_loop-keeps :
      (us : List UserId) (r : Run) (v : UserId)
      → A (get_part r.floor v) ≡ true
      → A (get_part (fan_loop us ev r).floor v) ≡ true
  unfolding fan_loop
  fan_loop-keeps [] r v h = h
  fan_loop-keeps (u ∷ us) r v h = fan_loop-keeps us (part_a r u ev) v (one (Bool-cases (v == u)))
    where
      one : ((v == u) ≡ true) ⊎ ((v == u) ≡ false) → A (get_part (part_a r u ev).floor v) ≡ true
      one (inl e) = let e' : v ≡ u = ground arith in rw e' (makes r u (rw (← e') (weak _ h)))
      one (inr e) = rw (part_a-other r u ev v e) h

  fan_loop-makes :
      (us : List UserId) (r : Run) (v : UserId)
      → fits (get_part r.floor v) ≡ true
      → contains us v ≡ true
      → A (get_part (fan_loop us ev r).floor v) ≡ true
  unfolding fan_loop contains
  fan_loop-makes [] r v h c = cc
  fan_loop-makes (u ∷ us) r v h c = elim (Bool-cases (v == u)) [
    | inl e ↦
        let e' : v ≡ u = ground arith in
        fan_loop-keeps us (part_a r u ev) v (rw e' (makes r u (rw (← e') h)))
    | inr e ↦ fan_loop-makes us (part_a r u ev) v (rw (part_a-other r u ev v e) h) (ground arith)
  ]

fan_loop-fits :
    (us : List UserId) (ev : Msg) (r : Run) (v : UserId)
    → fits (get_part r.floor v) ≡ true
    → fits (get_part (fan_loop us ev r).floor v) ≡ true
fan_loop-fits us ev r v h =
    fan_loop-keeps ev fits (λ p e. e) (λ s u k. part_a-fits s u ev k) us r v h

contains-others :
    (skip : Option UserId) (us : List UserId) (v : UserId)
    → contains us v ≡ true
    → is_user skip v ≡ false
    → contains (others skip us) v ≡ true
unfolding contains others
contains-others skip [] v c h = cc
contains-others none (x ∷ us) v c h = ground (arith, contains-others none us v)
contains-others (some w) (x ∷ us) v c h = ground (arith, contains-others (some w) us v)

others-none : (us : List UserId) → others none us ≡ us
unfolding others
others-none [] = refl
others-none (x ∷ us) = rw (others-none us)

-- A broadcast keeps every record fitting.
pub fan-fits :
    (r : Run) (ev : Msg) (skip : Option UserId) (v : UserId)
    → fits (get_part r.floor v) ≡ true
    → fits (get_part (fan r ev skip).floor v) ≡ true
unfolding fan
fan-fits r ev skip v h = grind (arith, fan_loop-fits)

-- After Floor Idle every member rests.
pub fan-rests :
    (r : Run) (prev : Option UserId) (v : UserId)
    → fits (get_part r.floor v) ≡ true
    → contains r.floor.members v ≡ true
    → rests (get_part (fan r (msg Mt.idle prev 0 0) none).floor v) ≡ true
unfolding fan
fan-rests r prev v h c =
    fan_loop-makes _ rests (λ p e. ground arith) (λ s u k. part_a-rests s u _ refl k)
      (others none r.floor.members) _ v h (contains-others none _ v c refl)

-- After Floor Taken every member but the speaker listens.
pub fan-hears :
    (r : Run) (sp : UserId) (v : UserId)
    → fits (get_part r.floor v) ≡ true
    → contains r.floor.members v ≡ true
    → (sp == v) ≡ false
    → hears (get_part (fan r (msg Mt.taken (some sp) 0 0) (some sp)).floor v) ≡ true
unfolding fan
fan-hears r sp v h c ne =
    fan_loop-makes _ hears (λ p e. ground arith) (λ s u k. part_a-hears s u _ refl k)
      (others (some sp) r.floor.members) _ v h (contains-others (some sp) _ v c ne)

-- Telling one participant keeps every record fitting.
pub part_a-fits_all :
    (r : Run) (u : UserId) (ev : Msg) (v : UserId)
    → fits (get_part r.floor v) ≡ true
    → fits (get_part (part_a r u ev).floor v) ≡ true
part_a-fits_all r u ev v h = elim (Bool-cases (v == u)) [
  | inl e ↦ let e' : v ≡ u = ground arith in rw e' (part_a-fits r u ev (rw e' at h))
  | inr e ↦ rw (part_a-other r u ev v e) h
]
