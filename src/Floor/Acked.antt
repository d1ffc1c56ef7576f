-- ===== src/Floor/Acked.antt =====
-- crates/oxsfud/src/flr/core.rs: what is sent first when a floor is let go.
use oxlens_sfu.Base.{
  ℕ, ◌≡◌, refl, Bool, true, List, [], ◌∷◌, ◌++◌, Option, none, some, arith, if_cases,
}
use oxlens_sfu.Floor.Types.{
  UserId, P, Mt, Msg, Out, Waiter, Part, Floor, Run, msg, start, get_part, part_of,
}
use oxlens_sfu.Floor.Queue.{contains}
use oxlens_sfu.Floor.Participant.{send, enter_r, send_e, part_a_arm, part_a, fan_loop, fan}
use oxlens_sfu.Floor.Arbiter.{enter_taken, idle_enter_at, idle_enter, arb_rel, speaks, revoked}
use oxlens_sfu.Floor.Receive.{part_c_arm, part_c, server_rx}
use oxlens_sfu.Floor.Causes

abbrev pub first_of : List Out → Option Out
first_of [] = none
first_of (o ∷ os) = some o

-- `o` is the first that is sent.
abbrev First : Out → Run → Type 0
First o r = first_of r.out ≡ some o

first_of-append : (xs ys : List Out) (o : Out) → first_of xs ≡ some o → first_of (xs ++ ys) ≡ some o
first_of-append [] ys o h = absurd (ground arith)
first_of-append (x ∷ xs) ys o h = h

module _ (o : Out) where
  send-First :
      (r : Run) (u : UserId) (t : Mt) (a : Option UserId) (n d : ℕ)
      → First o r
      → First o (send r u t a n d)
  unfolding send
  send-First r u t a n d h = first_of-append r.out _ o h

  part_a_arm-First :
      (t : Mt) (st : Option P) (r : Run) (u : UserId) (ev : Msg)
      → First o r
      → First o (part_a_arm t st r u ev)
  unfolding part_a_arm send_e enter_r send
  part_a_arm-First t st r u ev h = ground (arith, first_of-append r.out _ o h)

  part_a-First : (r : Run) (u : UserId) (ev : Msg) → First o r → First o (part_a r u ev)
  unfolding part_a
  part_a-First r u ev h = part_a_arm-First ev.t (part_of r.floor u) r u ev h

  fan_loop-First : (us : List UserId) (ev : Msg) (r : Run) → First o r → First o (fan_loop us ev r)
  unfolding fan_loop
  fan_loop-First [] ev r h = h
  fan_loop-First (u ∷ us) ev r h = fan_loop-First us ev (part_a r u ev) (part_a-First r u ev h)

  fan-First : (r : Run) (ev : Msg) (skip : Option UserId) → First o r → First o (fan r ev skip)
  unfolding fan
  fan-First r ev skip h = grind (arith, fan_loop-First)

  enter_taken-First : (r : Run) → First o r → First o (enter_taken r)
  unfolding enter_taken
  enter_taken-First r h = fan-First _ _ _ (part_a-First _ _ _ h)

  idle_enter_at-First : (q : List Waiter) (r : Run) → First o r → First o (idle_enter_at q r)
  unfolding idle_enter_at
  idle_enter_at-First [] r h = fan-First _ _ _ h
  idle_enter_at-First (w ∷ q) r h = enter_taken-First _ h

  arb_rel-First : (r : Run) (u : UserId) → First o r → First o (arb_rel r u)
  unfolding arb_rel idle_enter
  arb_rel-First r u h =
      if_cases (First o) (speaks r.floor u) (λ _. idle_enter_at-First _ _ h)
        (λ _. if_cases (First o) (revoked r.floor u) (λ _. idle_enter_at-First _ _ h) (λ _. h))

-- `Floor Ack` of a release.
abbrev pub ack_of : UserId → Out
ack_of u = record { to = u; m = msg Mt.ack none Causes.release_type 0 }

release-First :
    (st : Option P) (pp : Part) (f : Floor) (u : UserId) (ev : Msg) (t2 : ℕ)
    → First (ack_of u) (part_c_arm st Mt.release pp (start f) u ev t2)
unfolding part_c_arm send send_e enter_r
release-First (some P.np_idle) pp f u ev t2 = refl
release-First (some P.np_taken) pp f u ev t2 = refl
release-First (some P.permitted) pp f u ev t2 = arb_rel-First (ack_of u) _ u refl
release-First (some P.prevoke) pp f u ev t2 = arb_rel-First (ack_of u) _ u refl
release-First (some P.np_sends) pp f u ev t2 = ground arith
release-First (some P.releasing) pp f u ev t2 = ground arith
release-First none pp f u ev t2 = ground arith

-- A member's release is acknowledged to the member in every state of the floor and of the member,
-- before anything else is sent.
pub server_rx-acked :
    (f : Floor) (u : UserId) (m : Msg) (half : Bool) (t2_left : ℕ)
    → contains f.members u ≡ true
    → m.t ≡ Mt.release
    → first_of (server_rx f u m half t2_left).out ≡ some (ack_of u)
unfolding server_rx part_c
server_rx-acked f u m half t2_left c e =
    rw (e, c) (release-First (part_of f u) (get_part f u) f u (record m { t = Mt.release }) t2_left)
