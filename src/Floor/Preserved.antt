-- ===== src/Floor/Preserved.antt =====
-- crates/oxsfud/src/flr/core.rs: what participants send, and the floor's invariant.
use oxlens_sfu.Base.{
  ℕ, ◌==◌, ◌≡◌, ◌≢◌, refl, Bool, true, false, not, ◌&&◌, Option, none, some, arith, if_cases, ltb,
  leb, length,
}
use oxlens_sfu.Floor.Types.{
  UserId, G, P, Mt, Msg, Waiter, Part, Floor, Run, mark, get_part, part_of, is_user, is_idle,
  holder_prio,
}
use oxlens_sfu.Floor.Queue.{contains, dequeue, insert_q, in_q, pre_q}
use oxlens_sfu.Floor.Participant.{send, send_e, enter_r, enter_part, set_part}
use oxlens_sfu.Floor.Standing.{ok_part}
use oxlens_sfu.Floor.Invariant.{
  Inv, Holds, send-Inv, update_part-Inv, update_part-Inv_same, get_part-update,
}
use oxlens_sfu.Floor.Keeps.{
  arb_req_idle-Inv, arb_req_permitted-Inv, arb_preempt-Inv, arb_rel-Inv, arb_rtp-Inv,
}
use oxlens_sfu.Floor.Receive.{part_c, part_c_arm, revoke3, taken_req, ack_release}

-- A record of `u` that stands as the one before it did.
send_e-Inv :
    (r : Run) (u : UserId) (to : P) (m : Msg)
    → Inv r.floor
    → (let p = enter_part to (get_part r.floor u) in
        contains r.floor.members u ≡ true
        → ok_part r.floor.g (is_user r.floor.speaker u) p.part p.g_taken ≡ true)
    → Inv (send_e r u to m).floor
unfolding send_e enter_r
send_e-Inv r u to m v h =
    send-Inv (enter_r r u to) u m.t m.a m.n m.d (update_part-Inv r.floor u (enter_part to) v h)

pub dequeue-Inv : (f : Floor) (u : UserId) → Inv f → Inv (dequeue f u)
unfolding dequeue
dequeue-Inv f u v = record {
  shape = v.shape;
  idle_empty = λ e. rw (v.idle_empty e);
  stands = v.stands;
}

insert_q-Inv : (f : Floor) (w : Waiter) → is_idle f.g ≡ false → Inv f → Inv (insert_q f w)
unfolding insert_q
insert_q-Inv f w i v = record { shape = v.shape; idle_empty = λ e. cc (i, e); stands = v.stands }

ok_part-np_sends :
    (g : G) (s : Bool) (p : Part)
    → ok_part g s p.part p.g_taken ≡ true
    → ok_part g s (some P.np_sends) p.g_taken ≡ true
ok_part-np_sends g s p h = ground arith

-- A participant that speaks out of turn.
revoke3-Inv : (r : Run) (u : UserId) → Inv r.floor → Inv (revoke3 r u).floor
unfolding revoke3 enter_part
revoke3-Inv r u v =
    send_e-Inv (set_part r u c) u P.np_sends _
      (update_part-Inv_same r.floor u c (λ p. refl) (λ p. refl) v)
      (λ m.
        rw (get_part-update r.floor u c)
          (ok_part-np_sends r.floor.g _ (get_part r.floor u) (v.stands u m)))
  where
    c : Part → Part
    c p = record p { rcause = 3 }

taken_req-Inv :
    (r : Run) (u : UserId) (p : ℕ)
    → is_idle r.floor.g ≡ false
    → Inv r.floor
    → Inv (taken_req r u p).floor
unfolding taken_req
taken_req-Inv r u p i v =
    let f = r.floor in
    if_cases Holds (get_part f u).retry (λ _. send-Inv _ u _ _ _ _ v)
      (λ _.
        if_cases Holds (in_q f u) (λ _. send-Inv _ u _ _ _ _ v)
          (λ _.
            if_cases Holds (ltb (holder_prio f) p && not (pre_q f)) (λ _. arb_preempt-Inv _ u p v)
              (λ _.
                if_cases Holds (ltb (holder_prio f) p) (λ _. v)
                  (λ _.
                    if_cases Holds (leb f.qmax (length f.queue)) (λ _. send-Inv _ u _ _ _ _ v)
                      (λ _. send-Inv _ u _ _ _ _ (insert_q-Inv f _ i v))))))

ok_part-np_taken :
    (g : G) (s : Bool) (p : Part)
    → ok_part g s p.part p.g_taken ≡ true
    → p.g_taken ≡ true
    → ok_part g s (some P.np_taken) true ≡ true
ok_part-np_taken g s p h k = ground arith

ok_part-np_idle : (g : G) (s : Bool) → ok_part g s (some P.np_idle) false ≡ true
ok_part-np_idle g s = ground arith

np_taken-busy :
    (g : G) (s : Bool) (p : Part)
    → p.part ≡ some P.np_taken
    → ok_part g s p.part p.g_taken ≡ true
    → is_idle g ≡ false
np_taken-busy g s p e h = ground arith

-- A member's record is changed in what the invariant does not read.
pub touch-Inv :
    (r : Run) (u : UserId) (c : Part → Part)
    → ((p : Part) → (c p).part ≡ p.part)
    → ((p : Part) → (c p).g_taken ≡ p.g_taken)
    → Inv r.floor
    → Inv (set_part r u c).floor
touch-Inv r u c hp hg v = update_part-Inv_same r.floor u c hp hg v

released_sends-Inv :
    (r : Run) (u : UserId) (m : Msg) (pp : Part)
    → pp ≡ get_part r.floor u
    → pp.g_taken ≡ true
    → contains r.floor.members u ≡ true
    → Inv r.floor
    → Inv (send_e r u P.np_taken m).floor
unfolding enter_part
released_sends-Inv r u m pp e k c v =
    send_e-Inv r u P.np_taken m v
      (λ _. ok_part-np_taken r.floor.g (is_user r.floor.speaker u) pp (rw e (v.stands u c)) k)

module _ (r : Run) (u : UserId) (ev : Msg) (t : ℕ) (v : Inv r.floor) (pp : Part) where
  ack_release-Inv : (l : Run) → Inv l.floor → Inv (ack_release l u).floor
  ack_release-Inv l w = send-Inv l u Mt.ack none _ 0 w

  np_idle-Inv : (mt : Mt) → Inv (part_c_arm (some P.np_idle) mt pp r u ev t).floor
  unfolding part_c_arm
  np_idle-Inv Mt.request = arb_req_idle-Inv _ u ev.n v
  np_idle-Inv Mt.release = send-Inv _ u _ _ _ _ (dequeue-Inv _ u (ack_release-Inv _ v))
  np_idle-Inv Mt.rtp = if_cases Holds pp.released (λ _. revoke3-Inv _ u v) (λ _. v)
  np_idle-Inv _ = v

  np_taken-Inv :
      (mt : Mt)
      → is_idle r.floor.g ≡ false
      → Inv (part_c_arm (some P.np_taken) mt pp r u ev t).floor
  unfolding part_c_arm
  np_taken-Inv Mt.request i = taken_req-Inv _ u ev.n i v
  np_taken-Inv Mt.release i = send-Inv _ u _ _ _ _ (
      dequeue-Inv _ u (
        touch-Inv (ack_release (mark "FLR.S.P.NP_TAKEN.rx_RELEASE" r) u) u
          (λ p. record p { c21 = 1 }) (λ p. refl) (λ p. refl) (ack_release-Inv _ v)))
  np_taken-Inv Mt.ack i =
      if_cases Holds (ev.n == 2)
        (λ _. touch-Inv r u (λ p. record p { c21 = 0 }) (λ p. refl) (λ p. refl) v) (λ _. v)
  np_taken-Inv Mt.qpos_req i = send-Inv _ u _ _ _ _ v
  np_taken-Inv Mt.rtp i = revoke3-Inv _ u v
  np_taken-Inv _ i = v

  permitted-Inv : (mt : Mt) → Inv (part_c_arm (some P.permitted) mt pp r u ev t).floor
  unfolding part_c_arm
  permitted-Inv Mt.release = arb_rel-Inv _ u (
      ack_release-Inv _
        (touch-Inv r u (λ p. record p { released = true }) (λ p. refl) (λ p. refl) v))
  permitted-Inv Mt.request = arb_req_permitted-Inv _ u t v
  permitted-Inv Mt.rtp = arb_rtp-Inv _ u v
  permitted-Inv _ = v

  prevoke-Inv : (mt : Mt) → Inv (part_c_arm (some P.prevoke) mt pp r u ev t).floor
  unfolding part_c_arm
  prevoke-Inv Mt.release = arb_rel-Inv _ u (ack_release-Inv _ v)
  prevoke-Inv Mt.rtp = arb_rtp-Inv _ u v
  prevoke-Inv _ = v

  np_sends-Inv :
      (mt : Mt)
      → pp ≡ get_part r.floor u
      → contains r.floor.members u ≡ true
      → Inv (part_c_arm (some P.np_sends) mt pp r u ev t).floor
  unfolding part_c_arm send enter_part
  np_sends-Inv Mt.release e c =
      if_cases Holds pp.g_taken
        (λ k.
          released_sends-Inv (ack_release (mark "FLR.S.P.NPSENDS.rx_RELEASE_taken" r) u) u _ pp e k
            c (ack_release-Inv r v))
        (λ _.
          send_e-Inv (ack_release (mark "FLR.S.P.NPSENDS.rx_RELEASE_idle" r) u) u P.np_idle _
            (ack_release-Inv r v) (λ _. ok_part-np_idle r.floor.g _))
  np_sends-Inv Mt.rtp e c = v
  np_sends-Inv _ e c = v

-- A member is in one of five states.
ok_part-absurd :
    (g : G) (s : Bool) (p : Part)
    → ok_part g s p.part p.g_taken ≡ true
    → (p.part ≢ none) × (p.part ≢ some P.releasing)
ok_part-absurd g s p h = (λ e. ground arith, λ e. ground arith)

part_c_arm-Inv :
    (st : Option P) (r : Run) (u : UserId) (ev : Msg) (t : ℕ)
    → (get_part r.floor u).part ≡ st
    → contains r.floor.members u ≡ true
    → Inv r.floor
    → Inv (part_c_arm st ev.t (get_part r.floor u) r u ev t).floor
part_c_arm-Inv none r u ev t e c v =
    absurd ((ok_part-absurd r.floor.g _ (get_part r.floor u) (v.stands u c)).0 e)
part_c_arm-Inv (some P.np_idle) r u ev t e c v = np_idle-Inv r u ev t v _ ev.t
part_c_arm-Inv (some P.np_taken) r u ev t e c v =
    np_taken-Inv r u ev t v _ ev.t (np_taken-busy r.floor.g _ (get_part r.floor u) e (v.stands u c))
part_c_arm-Inv (some P.permitted) r u ev t e c v = permitted-Inv r u ev t v _ ev.t
part_c_arm-Inv (some P.prevoke) r u ev t e c v = prevoke-Inv r u ev t v _ ev.t
part_c_arm-Inv (some P.np_sends) r u ev t e c v = np_sends-Inv r u ev t v _ ev.t refl c
part_c_arm-Inv (some P.releasing) r u ev t e c v =
    absurd ((ok_part-absurd r.floor.g _ (get_part r.floor u) (v.stands u c)).1 e)

pub part_c-Inv :
    (r : Run) (u : UserId) (ev : Msg) (t : ℕ)
    → contains r.floor.members u ≡ true
    → Inv r.floor
    → Inv (part_c r u ev t).floor
unfolding part_c part_of
part_c-Inv r u ev t c v = part_c_arm-Inv (get_part r.floor u).part r u ev t refl c v
