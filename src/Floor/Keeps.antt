-- ===== src/Floor/Keeps.antt =====
-- crates/oxsfud/src/flr/core.rs: the arbiter and the floor's invariant.
use oxlens_sfu.Base.{
  ℕ, ◌==◌, ◌≡◌, refl, true, false, ◌⊎◌, List, [], ◌∷◌, ◌++◌, none, some, inl, inr, arith,
  Bool-cases, if_cases,
}
use oxlens_sfu.Floor.Types.{
  UserId, G, Mt, Msg, Waiter, Part, Floor, Run, msg, mark, get_part, is_user, is_idle, is_taken,
  or_no_user,
}
use oxlens_sfu.Floor.Queue.{contains}
use oxlens_sfu.Floor.Participant.{part_a, part_a_arm, send_e, enter_r}
use oxlens_sfu.Floor.Framing.{part_a-Frames, part_a-other}
use oxlens_sfu.Floor.Standing.{ok_part, fits, part_a-fits}
use oxlens_sfu.Floor.Invariant.{
  Inv, Fits, Holds, Inv-Fits, Frames-Inv, send-Inv, idle_enter_at-empty, enter_taken-Inv, ok_shape,
}
use oxlens_sfu.Floor.Arbiter.{
  idle_enter, idle_enter_at, prevoke_enter, grant_idle, arb_req_idle, arb_req_permitted,
  arb_preempt, arb_rel, arb_rtp, speaks, revoked,
}

idle_enter_at-Inv :
    (q : List Waiter) (r : Run) → r.floor.queue ≡ q → Fits r.floor → Inv (idle_enter_at q r).floor
idle_enter_at-Inv [] r e v = idle_enter_at-empty r e v
idle_enter_at-Inv (w ∷ rest) r e v =
    unfold idle_enter_at in
    enter_taken-Inv
      (record r { floor = f; labels = r.labels ++ ("FLR.S.G.IDLE.enter_succession" ∷ []) }) w.u refl
      v
  where
    f : Floor
    f = record r.floor {
      queue = rest;
      sprio = w.p;
      revoking = none;
      succ = true;
      rtp_seen = false;
      first_rtp = false;
      c20 = 1;
    }

-- Falling idle or to the first waiter restores the invariant from whatever is left of it.
pub idle_enter-Inv : (r : Run) → Fits r.floor → Inv (idle_enter r).floor
unfolding idle_enter
idle_enter-Inv r v = idle_enter_at-Inv r.floor.queue r refl v

part_a_arm-revoked :
    (t : Mt) (p : Part) (r : Run) (u : UserId) (ev : Msg)
    → t ≡ Mt.revoke
    → get_part r.floor u ≡ p
    → fits p ≡ true
    → (let p' = get_part (part_a_arm t p.part r u ev).floor u in
        ok_part G.prevoke false p'.part p'.g_taken ≡ true)
unfolding part_a_arm send_e enter_r
part_a_arm-revoked t p r u ev k e h = ground arith

ok_part-listener :
    (p : Part)
    → ok_part G.taken false p.part p.g_taken ≡ true
    → ok_part G.prevoke false p.part p.g_taken ≡ true
ok_part-listener p h = ground arith

-- Revoking the floor from its speaker.
pub prevoke_enter-Inv :
    (r : Run) (u : UserId) (cause : ℕ)
    → r.floor.g ≡ G.taken
    → r.floor.speaker ≡ some u
    → Inv r.floor
    → Inv (prevoke_enter r u cause).floor
unfolding prevoke_enter
prevoke_enter-Inv r u cause eg es v =
    Frames-Inv r1.floor _ (part_a-Frames r1 u ev) refl (λ e. cc)
      (λ w c. stands w c (Bool-cases (w == u)))
  where
    r1 : Run
    r1 = record r {
      floor = record r.floor {
        g = G.prevoke;
        revoking = some u;
        rprio = r.floor.sprio;
        rcause_g = cause;
        speaker = none;
      };
      labels = r.labels ++ ("FLR.S.G.PREVOKE.enter" ∷ []);
    }

    ev : Msg
    ev = msg Mt.revoke none cause 0

    stands :
        (w : UserId)
        → contains r.floor.members w ≡ true
        → ((w == u) ≡ true) ⊎ ((w == u) ≡ false)
        → (let p' = get_part (part_a r1 u ev).floor w in
            ok_part G.prevoke false p'.part p'.g_taken ≡ true)
    stands w c (inl e) =
        let k : w ≡ u = ground arith in
        rw k (
          unfold part_a in
          part_a_arm-revoked Mt.revoke (get_part r.floor u) r1 u ev refl refl
            (Inv-Fits r.floor v u (rw k at c)))
    stands w c (inr e) = rw (part_a-other r1 u ev w e) (
        ok_part-listener (get_part r.floor w) (
          let s : is_user r.floor.speaker w ≡ false = rw es (ground arith) in
          rw (eg, s) at (v.stands w c)))

-- Telling the speaker of the grant once more.
pub regrant-Inv :
    (r : Run) (u : UserId) (ev : Msg)
    → r.floor.g ≡ G.taken
    → r.floor.speaker ≡ some u
    → Inv r.floor
    → Inv (part_a r u ev).floor
regrant-Inv r u ev eg es v =
    Frames-Inv r.floor _ (part_a-Frames r u ev) v.shape v.idle_empty
      (λ w c. stands w c (Bool-cases (w == u)))
  where
    stands :
        (w : UserId)
        → contains r.floor.members w ≡ true
        → ((w == u) ≡ true) ⊎ ((w == u) ≡ false)
        → (let p' = get_part (part_a r u ev).floor w in
            ok_part r.floor.g (is_user r.floor.speaker w) p'.part p'.g_taken ≡ true)
    stands w c (inl e) =
        let k : w ≡ u = ground arith in
        let s : is_user r.floor.speaker u ≡ true = rw es (ground arith) in
        simp (k, eg, s) (part_a-fits r u ev (Inv-Fits r.floor v u (rw k at c)))
    stands w c (inr e) = rw (part_a-other r u ev w e) (v.stands w c)

pub speaks-eq :
    (f : Floor) (u : UserId) → speaks f u ≡ true → (f.g ≡ G.taken) × (f.speaker ≡ some u)
speaks-eq f u h = ground arith

pub taken-speaker :
    (f : Floor)
    → is_taken f.g ≡ true
    → ok_shape f.g f.speaker f.revoking ≡ true
    → (f.g ≡ G.taken) × (f.speaker ≡ some (or_no_user f.speaker))
taken-speaker f e h = ground arith

-- A denial changes nothing but the sequence of messages.
pub deny-Inv :
    (r : Run) (u : UserId) (cause : ℕ)
    → Inv r.floor
    → Inv (part_a r u (msg Mt.deny none cause 0)).floor
unfolding part_a part_a_arm
deny-Inv r u cause v = send-Inv (mark "FLR.S.P.any.a_DENY" r) u Mt.deny none cause 0 v

idle-unrevoked :
    (f : Floor) → is_idle f.g ≡ true → ok_shape f.g f.speaker f.revoking ≡ true → f.revoking ≡ none
idle-unrevoked f e h = ground arith

grant_idle-Inv :
    (r : Run) (u : UserId) (p : ℕ)
    → is_idle r.floor.g ≡ true
    → Inv r.floor
    → Inv (grant_idle r u p).floor
unfolding grant_idle
grant_idle-Inv r u p e v =
    enter_taken-Inv
      (record r {
        floor = record r.floor {
          sprio = p;
          succ = false;
          rtp_seen = false;
          first_rtp = false;
          c20 = 0;
        };
        labels = r.labels ++ ("FLR.S.G.IDLE.req_grant" ∷ []);
      })
      u (idle-unrevoked r.floor e v.shape) (Inv-Fits r.floor v)

-- A request while the floor is idle.
pub arb_req_idle-Inv : (r : Run) (u : UserId) (p : ℕ) → Inv r.floor → Inv (arb_req_idle r u p).floor
unfolding arb_req_idle
arb_req_idle-Inv r u p v = grind (arith, deny-Inv, grant_idle-Inv)

pub arb_req_permitted-Inv :
    (r : Run) (u : UserId) (t : ℕ) → Inv r.floor → Inv (arb_req_permitted r u t).floor
unfolding arb_req_permitted
arb_req_permitted-Inv r u t v = elim (Bool-cases (speaks r.floor u)) [
  | inl e ↦ let (eg, es) = speaks-eq r.floor u e in rw e (regrant-Inv _ u _ eg es v)
  | inr e ↦ rw e v
]

-- A preemption puts the member in front of the queue and revokes the floor.
pub arb_preempt-Inv : (r : Run) (u : UserId) (p : ℕ) → Inv r.floor → Inv (arb_preempt r u p).floor
unfolding arb_preempt
arb_preempt-Inv r u p v =
    if_cases Holds (is_taken r.floor.g)
      (λ e.
        unfold part_a part_a_arm in
        let (eg, es) = taken-speaker r.floor e v.shape in
        send-Inv (mark "FLR.S.P.any.a_QINFO" (prevoke_enter front (or_no_user r.floor.speaker) _)) u
          Mt.qinfo none 1 p
          (prevoke_enter-Inv front (or_no_user r.floor.speaker) _ eg es
            (record { shape = v.shape; idle_empty = λ i. cc (eg, i); stands = v.stands })))
      (λ e. v)
  where
    front : Run
    front = record r {
      floor = record r.floor { queue = record { u = u; p = p; pre = true } ∷ r.floor.queue };
      labels = r.labels ++ ("FLR.S.G.TAKEN.preempt" ∷ []);
    }

-- The member that holds the floor gives it up; a release by anybody else is discarded.
pub arb_rel-Inv : (r : Run) (u : UserId) → Inv r.floor → Inv (arb_rel r u).floor
unfolding arb_rel
arb_rel-Inv r u v =
    let w = Inv-Fits r.floor v in
    if_cases Holds (speaks r.floor u) (λ e. idle_enter-Inv _ w)
      (λ _. if_cases Holds (revoked r.floor u) (λ e. idle_enter-Inv _ w) (λ _. v))

pub arb_rtp-Inv : (r : Run) (u : UserId) → Inv r.floor → Inv (arb_rtp r u).floor
unfolding arb_rtp
arb_rtp-Inv r u v =
    if_cases Holds (speaks r.floor u)
      (λ e. record { shape = v.shape; idle_empty = v.idle_empty; stands = v.stands })
      (λ _. if_cases Holds (revoked r.floor u) (λ e. v) (λ _. v))
