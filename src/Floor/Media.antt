-- ===== src/Floor/Media.antt =====
-- crates/oxsfud/src/flr/core.rs: events, their effects on the media slot, and the floor's holder.
use Prim.Native.String.{String}
use oxlens_sfu.Base.{
  ℕ, ◌≡◌, refl, ◌∙◌, ◌+◌, Bool, true, false, not, ◌&&◌, List, [], ◌∷◌, ◌++◌, Option, none, some,
  inl, if_cases, ltb, u32, if◌then◌else◌,
}
use oxlens_sfu.Floor.Types.{
  UserId, P, Mt, Msg, Fx, Part, Floor, Run, TimerName, mark, start, get_part, part_of, is_user,
  is_taken, or_no_user, holder, new,
}
use oxlens_sfu.Floor.Queue.{in_q, contains, add_member, remove_member}
use oxlens_sfu.Floor.Participant.{set_part, send}
use oxlens_sfu.Floor.Arbiter.{speaks, revoked, idle_enter, set_prev}
use oxlens_sfu.Floor.Receive.{server_rx, rtp, is_ack, is_request, is_np_taken}
use oxlens_sfu.Floor.Membership.{
  ready, perm_down, perm_up, away, ws_pub_select, ws_pub_away, ws_leave, ws_join, has_user,
  newcomer,
}
use oxlens_sfu.Floor.Timers.{t1, t2, t3, t7, t8, t9, t20, t21, max_c20, max_c21, is_part_prevoke}
use oxlens_sfu.Floor.Events.{Event, step, run, fire, fire_due, armed_among, armed_for}
use oxlens_sfu.Floor.Invariant.{Inv}
use oxlens_sfu.Floor.Keeps.{taken-speaker, speaks-eq}
use oxlens_sfu.Floor.Reach.{armed-taken, new-Inv, step-Inv}
use oxlens_sfu.Floor.Binding.{
  Tracks, bound_after, part_a-Tracks, fan-Tracks, send-Tracks, idle_enter-Tracks,
  prevoke_enter-Tracks,
}
use oxlens_sfu.Floor.Follows.{touch-Tracks, drop_waiter-Tracks, part_c-Tracks, away-Tracks}

module _ (f : Floor) where
  -- The holder of the floor does not depend on who is in the room.
  members-Tracks :
      (b : Option UserId) (r : Run) (us : List UserId)
      → Tracks b r
      → Tracks b (record r { floor = record r.floor { members = us } })
  unfolding holder
  members-Tracks b r us t = t

  b : Option UserId
  b = holder f

  begin : Tracks b (start f)
  unfolding b
  begin = refl

  server_rx-Tracks :
      (u : UserId) (m : Msg) (half : Bool) (t : ℕ) → Inv f → Tracks b (server_rx f u m half t)
  unfolding server_rx
  server_rx-Tracks u m half t v =
      let pp = get_part f u in
      let out = contains f.members u in
      if_cases (Tracks b) (is_ack m.t && not (is_np_taken (part_of f u))) (λ _. begin)
        (λ _.
          if_cases (Tracks b) (not out && is_request m.t) (λ _. denied _ _)
            (λ _.
              if_cases (Tracks b) (not out) (λ _. begin)
                (λ c.
                  if_cases (Tracks b) (is_request m.t && not half) (λ _. denied _ _)
                    (λ _.
                      if_cases (Tracks b) (is_request m.t && not pp.pub_room) (λ _. denied _ _)
                        (λ _.
                          if_cases (Tracks b) (is_request m.t && not pp.perm) (λ _. denied _ _)
                            (λ _. part_c-Tracks b (start f) u m t v.shape begin))))))
    where
      denied :
          (l : List String) (c : ℕ)
          → Tracks b (send (record (start f) { labels = l }) u Mt.deny none c 0)
      denied l c = send-Tracks b (record (start f) { labels = l }) u Mt.deny none c 0 begin

  rtp-Tracks : (u : UserId) → Inv f → Tracks b (rtp f u)
  unfolding rtp
  rtp-Tracks u v =
      if_cases (Tracks b) (not (contains f.members u)) (λ _. begin)
        (λ c. part_c-Tracks b (start f) u _ 0 v.shape begin)

  ready-Tracks : (u : UserId) → Tracks b (ready f u)
  unfolding ready
  ready-Tracks u =
      if_cases (Tracks b) (is_user (holder f) u) (λ _. begin)
        (λ _.
          if_cases (Tracks b) (has_user (holder f)) (λ _. send-Tracks b _ u _ _ _ _ begin)
            (λ _. send-Tracks b _ u _ _ _ _ begin))

  perm_down-Tracks : (u : UserId) → Tracks b (perm_down f u)
  unfolding perm_down
  perm_down-Tracks u =
      let c : Part → Part = λ p. record p { perm = false } in
      let t = touch-Tracks b (start f) u c begin in
      if_cases (Tracks b) (speaks f u)
        (λ e.
          let (eg, es) = speaks-eq f u e in
          prevoke_enter-Tracks b (mark "FLR.S.perm.speaker" (set_part (start f) u c)) u _ eg es t)
        (λ _.
          if_cases (Tracks b) (in_q f u)
            (λ _.
              part_a-Tracks b _ u _
                (drop_waiter-Tracks b (mark "FLR.S.perm.queued" (set_part (start f) u c)) u t))
            (λ _. t))

  left : UserId → Run
  left u = set_part (mark "FLR.S.ws.leave" (start f)) u (λ p. record p { pub_room = false })

  ws_leave-Tracks : (u : UserId) → Tracks b (ws_leave f u)
  unfolding ws_leave left
  ws_leave-Tracks u =
      let r1 = away (left u) u in
      let r2 = record r1 {
        floor = record r1.floor { members = remove_member u r1.floor.members };
      } in
      touch-Tracks b r2 u (λ p. record p { retry = false; part = some P.releasing })
        (members-Tracks b r1 _ (
          away-Tracks b (left u) u (
            touch-Tracks b (mark "FLR.S.ws.leave" (start f)) u (λ p. record p { pub_room = false })
              begin)))

  come : UserId → Run
  come u =
      if revoked f u
      then idle_enter (set_prev f.revoking (mark "FLR.S.ws.join_revoking" (start f)))
      else mark "FLR.S.ws.join" (start f)

  ws_join-Tracks : (u : UserId) (perm : Bool) → Tracks b (ws_join f u perm)
  unfolding ws_join come
  ws_join-Tracks u perm =
      let r1 = come u in
      let r2 = record r1 { floor = record r1.floor { members = add_member u r1.floor.members } } in
      touch-Tracks b r2 u (newcomer (has_user (holder r2.floor)) perm) (
        members-Tracks b r1 _
          (if_cases (Tracks b) (revoked f u) (λ _. idle_enter-Tracks b _) (λ _. begin)))

  t2-Tracks : is_taken f.g ≡ true → Inv f → Tracks b (t2 f)
  unfolding t2
  t2-Tracks e v =
      let (eg, es) = taken-speaker f e v.shape in
      let u = or_no_user f.speaker in
      let c : Part → Part = λ p. record p { retry = true } in
      prevoke_enter-Tracks b (set_part (mark "FLR.S.G.TAKEN.T2" (start f)) u c) u _ eg es
        (touch-Tracks b (mark "FLR.S.G.TAKEN.T2" (start f)) u c begin)

  t8-Tracks : (u : UserId) → Tracks b (t8 f u)
  unfolding t8
  t8-Tracks u =
      let t = touch-Tracks b (start f) u (λ p. record p { c8 = u32 (p.c8 + 1) }) begin in
      if_cases (Tracks b) (is_part_prevoke (part_of f u)) (λ _. send-Tracks b _ u _ _ _ _ t)
        (λ _. send-Tracks b _ u _ _ _ _ t)

  t21-Tracks : (u : UserId) → Tracks b (t21 f u)
  unfolding t21
  t21-Tracks u =
      let t = touch-Tracks b (start f) u (λ p. record p { c21 = u32 (p.c21 + 1) }) begin in
      if_cases (Tracks b) (ltb (get_part f u).c21 max_c21) (λ _. send-Tracks b _ u _ _ _ _ t)
        (λ _. t)

  t20-Tracks : Tracks b (t20 f)
  unfolding t20 holder b
  t20-Tracks = if_cases (Tracks b) (ltb f.c20 max_c20) (λ _. part_a-Tracks b _ _ _ refl) (λ _. refl)

  t7-Tracks : Tracks b (t7 f)
  unfolding t7 holder b
  t7-Tracks = fan-Tracks b _ _ _ refl

  t1-Tracks : Tracks b (t1 f)
  unfolding t1
  t1-Tracks = idle_enter-Tracks b _

  t3-Tracks : Tracks b (t3 f)
  unfolding t3
  t3-Tracks = idle_enter-Tracks b _

  fire-Tracks :
      (t : TimerName) (user : Option UserId)
      → armed_among t (armed_for f user) ≡ true
      → Inv f
      → Tracks b (fire f t (or_no_user user))
  unfolding fire t9
  fire-Tracks TimerName.t1 user a v = t1-Tracks
  fire-Tracks TimerName.t2 user a v = t2-Tracks (armed-taken f _ user a (inl refl)) v
  fire-Tracks TimerName.t3 user a v = t3-Tracks
  fire-Tracks TimerName.t7 user a v = t7-Tracks
  fire-Tracks TimerName.t8 user a v = t8-Tracks (or_no_user user)
  fire-Tracks TimerName.t9 user a v =
      touch-Tracks b (mark "FLR.S.T9.expire" (start f)) (or_no_user user)
        (λ p. record p { retry = false }) begin
  fire-Tracks TimerName.t20 user a v = t20-Tracks
  fire-Tracks TimerName.t21 user a v = t21-Tracks (or_no_user user)

  step-Tracks : (e : Event) → Inv f → Tracks b (step f e)
  unfolding step perm_up ws_pub_select ws_pub_away fire_due
  step-Tracks (Event.rx u m half t) v = server_rx-Tracks u m half t v
  step-Tracks (Event.media u) v = rtp-Tracks u v
  step-Tracks (Event.readied u) v = ready-Tracks u
  step-Tracks (Event.permitted u) v =
      touch-Tracks b (mark "FLR.S.perm.up" (start f)) u (λ p. record p { perm = true }) begin
  step-Tracks (Event.forbidden u) v = perm_down-Tracks u
  step-Tracks (Event.selected u) v =
      touch-Tracks b (mark "FLR.S.ws.pub_select" (start f)) u (λ p. record p { pub_room = true })
        begin
  step-Tracks (Event.deselected u) v =
      let c : Part → Part = λ p. record p { pub_room = false } in
      away-Tracks b (set_part (mark "FLR.S.ws.pub_away" (start f)) u c) u
        (touch-Tracks b (mark "FLR.S.ws.pub_away" (start f)) u c begin)
  step-Tracks (Event.left u) v = ws_leave-Tracks u
  step-Tracks (Event.joined u perm) v = ws_join-Tracks u perm
  step-Tracks (Event.due t user) v =
      if_cases (Tracks b) (armed_among t (armed_for f user)) (λ a. fire-Tracks t user a v)
        (λ _. begin)

-- The effects of an event bind the media slot of the old holder to the new one.
pub step-bound :
    (f : Floor) (e : Event) → Inv f → bound_after (step f e).fx (holder f) ≡ holder (step f e).floor
unfolding b
step-bound f e v = step-Tracks f e v

-- All effects of a history, in order.
unfoldable pub effects : Floor → List Event → List Fx
effects f [] = []
effects f (e ∷ es) = (step f e).fx ++ effects (step f e).floor es

bound_after-append :
    (xs ys : List Fx) (o : Option UserId)
    → bound_after (xs ++ ys) o ≡ bound_after ys (bound_after xs o)
bound_after-append [] ys o = refl
bound_after-append (Fx.bind u ∷ xs) ys o = bound_after-append xs ys (some u)
bound_after-append (Fx.release p ∷ xs) ys o = bound_after-append xs ys none

effects-bound :
    (f : Floor) (es : List Event)
    → Inv f
    → bound_after (effects f es) (holder f) ≡ holder (run f es)
unfolding effects run
effects-bound f [] v = refl
effects-bound f (e ∷ es) v =
    bound_after-append (step f e).fx _ (holder f)
    ∙ rw (step-bound f e v) (effects-bound (step f e).floor es (step-Inv f e v))

-- The effects of the whole history of a room, applied in order to a free slot, bind it to the
-- holder of the floor, and leave it free exactly when nobody holds the floor.
pub effects-holder :
    (qmax t2 : ℕ) (es : List Event)
    → bound_after (effects (new qmax t2) es) none ≡ holder (run (new qmax t2) es)
unfolding new holder
effects-holder qmax t2 es = effects-bound (new qmax t2) es (new-Inv qmax t2)
