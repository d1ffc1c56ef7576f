-- ===== src/Floor/Binding.antt =====
-- crates/oxsfud/src/flr/core.rs: the effects on the media slot, and the arbiter.
use oxlens_sfu.Base.{
  ℕ, ◌≡◌, refl, sym, ◌∙◌, true, false, List, [], ◌∷◌, ◌++◌, Option, none, some, arith, if_cases,
}
use oxlens_sfu.Floor.Types.{
  UserId, G, P, Mt, Msg, Fx, Waiter, Floor, Run, get_part, is_idle, is_taken, or_no_user, holder,
}
use oxlens_sfu.Floor.Queue.{alone}
use oxlens_sfu.Floor.Participant.{part_a, send, send_e, fan}
use oxlens_sfu.Floor.Framing.{Frames, Frames-trans, part_a-Frames, part_a-fx, fan-Frames, fan-fx}
use oxlens_sfu.Floor.Arbiter.{
  enter_taken, idle_enter, idle_enter_at, prevoke_enter, grant_idle, arb_req_idle,
  arb_req_permitted, arb_preempt, arb_rel, arb_rtp, speaks, revoked,
}
use oxlens_sfu.Floor.Invariant.{ok_shape}
use oxlens_sfu.Floor.Keeps.{taken-speaker}

-- Whom the media slot is bound to after the effects, in order.
abbrev pub bound_after : List Fx → Option UserId → Option UserId
bound_after [] b = b
bound_after (Fx.bind u ∷ xs) b = bound_after xs (some u)
bound_after (Fx.release p ∷ xs) b = bound_after xs none

bound_after-bind :
    (xs : List Fx) (u : UserId) (b : Option UserId)
    → bound_after (xs ++ (Fx.bind u ∷ [])) b ≡ some u
bound_after-bind [] u b = refl
bound_after-bind (Fx.bind v ∷ xs) u b = bound_after-bind xs u (some v)
bound_after-bind (Fx.release p ∷ xs) u b = bound_after-bind xs u none

bound_after-release :
    (xs : List Fx) (p b : Option UserId) → bound_after (xs ++ (Fx.release p ∷ [])) b ≡ none
bound_after-release [] p b = refl
bound_after-release (Fx.bind v ∷ xs) p b = bound_after-release xs p (some v)
bound_after-release (Fx.release q ∷ xs) p b = bound_after-release xs p none

-- The effects so far have brought a slot bound to `b` to the holder of the floor.
abbrev pub Tracks : Option UserId → Run → Type 0
Tracks b r = bound_after r.fx b ≡ holder r.floor

Frames-holder : (f f' : Floor) → Frames f f' → holder f' ≡ holder f
unfolding holder
Frames-holder f f' h = rw h

module _ (b : Option UserId) where
  pub part_a-Tracks : (r : Run) (u : UserId) (ev : Msg) → Tracks b r → Tracks b (part_a r u ev)
  part_a-Tracks r u ev t = rw (part_a-fx r u ev, Frames-holder r.floor _ (part_a-Frames r u ev)) t

  pub fan-Tracks :
      (r : Run) (ev : Msg) (skip : Option UserId) → Tracks b r → Tracks b (fan r ev skip)
  fan-Tracks r ev skip t = rw (fan-fx r ev skip, Frames-holder r.floor _ (fan-Frames r ev skip)) t

  pub send-Tracks :
      (r : Run) (u : UserId) (t : Mt) (a : Option UserId) (n d : ℕ)
      → Tracks b r
      → Tracks b (send r u t a n d)
  unfolding send holder
  send-Tracks r u t a n d h = h

  pub send_e-Tracks :
      (r : Run) (u : UserId) (to : P) (m : Msg) → Tracks b r → Tracks b (send_e r u to m)
  unfolding send_e holder
  send_e-Tracks r u to m h = h

  pub enter_taken-Tracks :
      (r : Run) (sp : UserId)
      → Tracks b
          (enter_taken (record r { floor = record r.floor { g = G.taken; speaker = some sp } }))
  unfolding enter_taken
  enter_taken-Tracks r sp = rw bound_after-bind (
      sym (
        Frames-holder f1 _ (Frames-trans f1 _ _ (part_a-Frames r1 sp _) (fan-Frames _ _ _)) ∙ held))
    where
      f1 : Floor
      f1 = record r.floor { g = G.taken; speaker = some sp; idle_bcast = false }

      r1 : Run
      r1 = record r { floor = f1; labels = r.labels ++ ("FLR.S.G.TAKEN.enter" ∷ []) }

      held : holder f1 ≡ some sp
      held = unfold holder in refl

  pub idle_enter_at-Tracks : (q : List Waiter) (r : Run) → Tracks b (idle_enter_at q r)
  unfolding idle_enter_at
  idle_enter_at-Tracks [] r =
      rw bound_after-release (sym (Frames-holder f1 _ (fan-Frames _ _ _) ∙ free))
    where
      f1 : Floor
      f1 = record r.floor {
        g = G.idle;
        speaker = none;
        revoking = none;
        first_rtp = false;
        idle_bcast = true;
        c7 = 1;
      }

      free : holder f1 ≡ none
      free = unfold holder in refl
  idle_enter_at-Tracks (w ∷ rest) r =
      enter_taken-Tracks
        (record r {
          floor = record r.floor {
            queue = rest;
            sprio = w.p;
            revoking = none;
            succ = true;
            rtp_seen = false;
            first_rtp = false;
            c20 = 1;
          };
          labels = r.labels ++ ("FLR.S.G.IDLE.enter_succession" ∷ []);
        })
        w.u

  pub idle_enter-Tracks : (r : Run) → Tracks b (idle_enter r)
  unfolding idle_enter
  idle_enter-Tracks r = idle_enter_at-Tracks r.floor.queue r

  pub prevoke_enter-Tracks :
      (r : Run) (u : UserId) (cause : ℕ)
      → r.floor.g ≡ G.taken
      → r.floor.speaker ≡ some u
      → Tracks b r
      → Tracks b (prevoke_enter r u cause)
  unfolding prevoke_enter holder
  prevoke_enter-Tracks r u cause eg es t = part_a-Tracks _ u _ (t ∙ ground arith)

  pub arb_req_idle-Tracks :
      (r : Run) (u : UserId) (p : ℕ) → Tracks b r → Tracks b (arb_req_idle r u p)
  unfolding arb_req_idle grant_idle
  arb_req_idle-Tracks r u p t =
      if_cases (Tracks b) (is_idle r.floor.g)
        (λ _.
          if_cases (Tracks b) (alone r.floor) (λ _. part_a-Tracks _ u _ t)
            (λ _.
              if_cases (Tracks b) (get_part r.floor u).retry (λ _. part_a-Tracks _ u _ t)
                (λ _.
                  enter_taken-Tracks
                    (record r {
                      floor = record r.floor {
                        sprio = p;
                        succ = false;
                        rtp_seen = false;
                        first_rtp = false;
                        c20 = 0;
                      };
                      labels = r.labels ++ ("FLR.S.G.IDLE.req_grant" ∷ []);
                    })
                    u)))
        (λ _. t)

  pub arb_req_permitted-Tracks :
      (r : Run) (u : UserId) (n : ℕ) → Tracks b r → Tracks b (arb_req_permitted r u n)
  unfolding arb_req_permitted
  arb_req_permitted-Tracks r u n t =
      if_cases (Tracks b) (speaks r.floor u) (λ _. part_a-Tracks _ u _ t) (λ _. t)

  pub arb_preempt-Tracks :
      (r : Run) (u : UserId) (p : ℕ)
      → ok_shape r.floor.g r.floor.speaker r.floor.revoking ≡ true
      → Tracks b r
      → Tracks b (arb_preempt r u p)
  unfolding arb_preempt
  arb_preempt-Tracks r u p h t =
      if_cases (Tracks b) (is_taken r.floor.g)
        (λ e.
          let (eg, es) = taken-speaker r.floor e h in
          part_a-Tracks _ u _
            (prevoke_enter-Tracks front (or_no_user r.floor.speaker) _ eg es (unfold holder in t)))
        (λ _. t)
    where
      front : Run
      front = record r {
        floor = record r.floor { queue = record { u = u; p = p; pre = true } ∷ r.floor.queue };
        labels = r.labels ++ ("FLR.S.G.TAKEN.preempt" ∷ []);
      }

  pub arb_rel-Tracks : (r : Run) (u : UserId) → Tracks b r → Tracks b (arb_rel r u)
  unfolding arb_rel
  arb_rel-Tracks r u t =
      if_cases (Tracks b) (speaks r.floor u) (λ _. idle_enter-Tracks _)
        (λ _. if_cases (Tracks b) (revoked r.floor u) (λ _. idle_enter-Tracks _) (λ _. t))

  pub arb_rtp-Tracks : (r : Run) (u : UserId) → Tracks b r → Tracks b (arb_rtp r u)
  unfolding arb_rtp holder
  arb_rtp-Tracks r u t =
      if_cases (Tracks b) (speaks r.floor u) (λ _. t)
        (λ _. if_cases (Tracks b) (revoked r.floor u) (λ _. t) (λ _. t))
