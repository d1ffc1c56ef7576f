-- ===== src/Floor/Follows.antt =====
-- crates/oxsfud/src/flr/core.rs: the participants' arms, their effects on the media slot, and the holder.
use oxlens_sfu.Base.{ℕ, ◌==◌, ◌≡◌, true, not, ◌&&◌, Option, none, some, if_cases, ltb, leb, length}
use oxlens_sfu.Floor.Types.{
  UserId, P, Mt, Msg, Waiter, Part, Run, mark, get_part, part_of, holder, holder_prio,
}
use oxlens_sfu.Floor.Queue.{in_q, pre_q, insert_q, dequeue}
use oxlens_sfu.Floor.Participant.{set_part}
use oxlens_sfu.Floor.Arbiter.{speaks, revoked}
use oxlens_sfu.Floor.Receive.{
  part_c, part_c_arm, revoke3, taken_req, drop_waiter, add_waiter, ack_release,
}
use oxlens_sfu.Floor.Membership.{away}
use oxlens_sfu.Floor.Invariant.{ok_shape}
use oxlens_sfu.Floor.Binding.{
  Tracks, send-Tracks, send_e-Tracks, idle_enter-Tracks, arb_req_idle-Tracks,
  arb_req_permitted-Tracks, arb_preempt-Tracks, arb_rel-Tracks, arb_rtp-Tracks,
}

module _ (b : Option UserId) where
  pub touch-Tracks :
      (r : Run) (u : UserId) (c : Part → Part) → Tracks b r → Tracks b (set_part r u c)
  unfolding holder
  touch-Tracks r u c t = t

  pub drop_waiter-Tracks : (r : Run) (u : UserId) → Tracks b r → Tracks b (drop_waiter r u)
  unfolding holder dequeue
  drop_waiter-Tracks r u t = t

  pub add_waiter-Tracks : (r : Run) (w : Waiter) → Tracks b r → Tracks b (add_waiter r w)
  unfolding holder insert_q
  add_waiter-Tracks r w t = t

  pub revoke3-Tracks : (r : Run) (u : UserId) → Tracks b r → Tracks b (revoke3 r u)
  unfolding revoke3
  revoke3-Tracks r u t = send_e-Tracks b _ u _ _ (touch-Tracks r u (λ p. record p { rcause = 3 }) t)

  pub taken_req-Tracks :
      (r : Run) (u : UserId) (p : ℕ)
      → ok_shape r.floor.g r.floor.speaker r.floor.revoking ≡ true
      → Tracks b r
      → Tracks b (taken_req r u p)
  unfolding taken_req
  taken_req-Tracks r u p h t =
      let f = r.floor in
      if_cases (Tracks b) (get_part f u).retry (λ _. send-Tracks b _ u _ _ _ _ t)
        (λ _.
          if_cases (Tracks b) (in_q f u) (λ _. send-Tracks b _ u _ _ _ _ t)
            (λ _.
              if_cases (Tracks b) (ltb (holder_prio f) p && not (pre_q f))
                (λ _. arb_preempt-Tracks b _ u p h t)
                (λ _.
                  if_cases (Tracks b) (ltb (holder_prio f) p) (λ _. t)
                    (λ _.
                      if_cases (Tracks b) (leb f.qmax (length f.queue))
                        (λ _. send-Tracks b _ u _ _ _ _ t)
                        (λ _.
                          send-Tracks b _ u _ _ _ _
                            (add_waiter-Tracks (mark "FLR.S.P.NP_TAKEN.req_enqueue" r) _ t))))))

  module _ (r : Run) (u : UserId) (ev : Msg) (n : ℕ) (pp : Part)
      (h : ok_shape r.floor.g r.floor.speaker r.floor.revoking ≡ true) (t : Tracks b r) where
    acked-Tracks : (l : Run) → Tracks b l → Tracks b (ack_release l u)
    acked-Tracks l k = send-Tracks b l u Mt.ack none _ 0 k

    np_idle-Tracks : (mt : Mt) → Tracks b (part_c_arm (some P.np_idle) mt pp r u ev n)
    unfolding part_c_arm
    np_idle-Tracks Mt.request = arb_req_idle-Tracks b _ u ev.n t
    np_idle-Tracks Mt.release = send-Tracks b _ u _ _ _ _ (
        drop_waiter-Tracks (ack_release (mark "FLR.S.P.NP_IDLE.rx_RELEASE" r) u) u
          (acked-Tracks _ t))
    np_idle-Tracks Mt.rtp = if_cases (Tracks b) pp.released (λ _. revoke3-Tracks _ u t) (λ _. t)
    np_idle-Tracks _ = t

    np_taken-Tracks : (mt : Mt) → Tracks b (part_c_arm (some P.np_taken) mt pp r u ev n)
    unfolding part_c_arm
    np_taken-Tracks Mt.request = taken_req-Tracks _ u ev.n h t
    np_taken-Tracks Mt.release =
        let r1 = ack_release (mark "FLR.S.P.NP_TAKEN.rx_RELEASE" r) u in
        let c : Part → Part = λ p. record p { c21 = 1 } in
        send-Tracks b _ u _ _ _ _
          (drop_waiter-Tracks (set_part r1 u c) u (touch-Tracks r1 u c (acked-Tracks _ t)))
    np_taken-Tracks Mt.ack =
        if_cases (Tracks b) (ev.n == 2)
          (λ _.
            touch-Tracks (mark "FLR.S.P.NP_TAKEN.rx_ACK_taken" r) u (λ p. record p { c21 = 0 }) t)
          (λ _. t)
    np_taken-Tracks Mt.qpos_req = send-Tracks b _ u _ _ _ _ t
    np_taken-Tracks Mt.rtp = revoke3-Tracks _ u t
    np_taken-Tracks _ = t

    permitted-Tracks : (mt : Mt) → Tracks b (part_c_arm (some P.permitted) mt pp r u ev n)
    unfolding part_c_arm
    permitted-Tracks Mt.release = arb_rel-Tracks b _ u (
        acked-Tracks _ (
          touch-Tracks (mark "FLR.S.P.PERMITTED.rx_RELEASE" r) u (λ p. record p { released = true })
            t))
    permitted-Tracks Mt.request = arb_req_permitted-Tracks b _ u n t
    permitted-Tracks Mt.rtp = arb_rtp-Tracks b _ u t
    permitted-Tracks _ = t

    prevoke-Tracks : (mt : Mt) → Tracks b (part_c_arm (some P.prevoke) mt pp r u ev n)
    unfolding part_c_arm
    prevoke-Tracks Mt.release = arb_rel-Tracks b _ u (acked-Tracks _ t)
    prevoke-Tracks Mt.rtp = arb_rtp-Tracks b _ u t
    prevoke-Tracks _ = t

    -- The last arms: a release by somebody told to stop, gone or unknown.
    outside-Tracks : Tracks b (part_c_arm (some P.np_sends) Mt.release pp r u ev n)
    unfolding part_c_arm
    outside-Tracks =
        if_cases (Tracks b) pp.g_taken (λ _. send_e-Tracks b _ u _ _ (acked-Tracks _ t))
          (λ _. send_e-Tracks b _ u _ _ (acked-Tracks _ t))

    part_c_arm-Tracks : (st : Option P) (mt : Mt) → Tracks b (part_c_arm st mt pp r u ev n)
    unfolding part_c_arm
    part_c_arm-Tracks (some P.np_idle) mt = np_idle-Tracks mt
    part_c_arm-Tracks (some P.np_taken) mt = np_taken-Tracks mt
    part_c_arm-Tracks (some P.permitted) mt = permitted-Tracks mt
    part_c_arm-Tracks (some P.prevoke) mt = prevoke-Tracks mt
    part_c_arm-Tracks _ Mt.release = outside-Tracks
    part_c_arm-Tracks _ Mt.rtp = t
    part_c_arm-Tracks _ _ = t

  pub part_c-Tracks :
      (r : Run) (u : UserId) (ev : Msg) (n : ℕ)
      → ok_shape r.floor.g r.floor.speaker r.floor.revoking ≡ true
      → Tracks b r
      → Tracks b (part_c r u ev n)
  unfolding part_c
  part_c-Tracks r u ev n h t = part_c_arm-Tracks r u ev n _ h t (part_of r.floor u) ev.t

  pub away-Tracks : (r : Run) (u : UserId) → Tracks b r → Tracks b (away r u)
  unfolding away
  away-Tracks r u t =
      if_cases (Tracks b) (speaks r.floor u) (λ _. idle_enter-Tracks b _)
        (λ _.
          if_cases (Tracks b) (revoked r.floor u) (λ _. t)
            (λ _.
              if_cases (Tracks b) (in_q r.floor u)
                (λ _. drop_waiter-Tracks (mark "FLR.S.away.queued" r) u t) (λ _. t)))
