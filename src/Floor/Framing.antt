-- ===== src/Floor/Framing.antt =====
-- crates/oxsfud/src/flr/core.rs: what telling participants of an event leaves alone, namely all
-- of the floor but their own records and the sequence number.
use oxlens_sfu.Base.{ℕ, ◌==◌, ◌≡◌, refl, ◌∙◌, false, List, [], ◌∷◌, Option, arith}
use oxlens_sfu.Floor.Types.{UserId, P, Mt, Msg, Floor, Run, part_of}
use oxlens_sfu.Floor.Participant.{part_a, part_a_arm, send, send_e, enter_r, fan, fan_loop}

-- `f'` is `f` but for the participants' records and the sequence number.
abbrev pub Frames : Floor → Floor → Type 0
Frames f f' = f' ≡ record f { parts = f'.parts; seq = f'.seq }

pub Frames-trans : (f f' f'' : Floor) → Frames f f' → Frames f' f'' → Frames f f''
Frames-trans f f' f'' h h' = ground arith

pub send-Frames :
    (r : Run) (u : UserId) (t : Mt) (a : Option UserId) (n d : ℕ)
    → Frames r.floor (send r u t a n d).floor
unfolding send
send-Frames r u t a n d = refl

part_a_arm-Frames :
    (t : Mt) (st : Option P) (r : Run) (u : UserId) (ev : Msg)
    → Frames r.floor (part_a_arm t st r u ev).floor
unfolding part_a_arm send_e enter_r
part_a_arm-Frames t st r u ev = ground arith

part_a_arm-fx :
    (t : Mt) (st : Option P) (r : Run) (u : UserId) (ev : Msg) → (part_a_arm t st r u ev).fx ≡ r.fx
unfolding part_a_arm send_e enter_r
part_a_arm-fx t st r u ev = ground arith

part_a_arm-other :
    (t : Mt) (st : Option P) (r : Run) (u : UserId) (ev : Msg) (v : UserId)
    → (v == u) ≡ false
    → (part_a_arm t st r u ev).floor.parts v ≡ r.floor.parts v
unfolding part_a_arm send_e enter_r
part_a_arm-other t st r u ev v h = ground arith

pub part_a-Frames : (r : Run) (u : UserId) (ev : Msg) → Frames r.floor (part_a r u ev).floor
unfolding part_a
part_a-Frames r u ev = part_a_arm-Frames ev.t (part_of r.floor u) r u ev

pub part_a-fx : (r : Run) (u : UserId) (ev : Msg) → (part_a r u ev).fx ≡ r.fx
unfolding part_a
part_a-fx r u ev = part_a_arm-fx ev.t (part_of r.floor u) r u ev

pub part_a-other :
    (r : Run) (u : UserId) (ev : Msg) (v : UserId)
    → (v == u) ≡ false
    → (part_a r u ev).floor.parts v ≡ r.floor.parts v
unfolding part_a
part_a-other r u ev v h = part_a_arm-other ev.t (part_of r.floor u) r u ev v h

fan_loop-Frames : (us : List UserId) (ev : Msg) (r : Run) → Frames r.floor (fan_loop us ev r).floor
unfolding fan_loop
fan_loop-Frames [] ev r = refl
fan_loop-Frames (u ∷ us) ev r =
    Frames-trans r.floor (part_a r u ev).floor (fan_loop us ev (part_a r u ev)).floor
      (part_a-Frames r u ev) (fan_loop-Frames us ev (part_a r u ev))

fan_loop-fx : (us : List UserId) (ev : Msg) (r : Run) → (fan_loop us ev r).fx ≡ r.fx
unfolding fan_loop
fan_loop-fx [] ev r = refl
fan_loop-fx (u ∷ us) ev r = fan_loop-fx us ev (part_a r u ev) ∙ part_a-fx r u ev

pub fan-Frames : (r : Run) (ev : Msg) (skip : Option UserId) → Frames r.floor (fan r ev skip).floor
unfolding fan
fan-Frames r ev skip = grind (arith, fan_loop-Frames)

pub fan-fx : (r : Run) (ev : Msg) (skip : Option UserId) → (fan r ev skip).fx ≡ r.fx
unfolding fan
fan-fx r ev skip = grind (arith, fan_loop-fx)
