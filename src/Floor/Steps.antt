-- ===== src/Floor/Steps.antt =====
-- crates/oxsfud/src/flr/core.rs: the entry points of the floor, and its invariant.
use Prim.Native.String.{String}
use oxlens_sfu.Base.{
  ℕ, ◌==◌, ◌≡◌, refl, Bool, true, false, not, ◌&&◌, ◌+◌, ◌⊎◌, List, none, some, inl, inr, arith,
  Bool-cases, if_cases, ltb, u32, if◌then◌else◌,
}
use oxlens_sfu.Floor.Types.{
  UserId, G, P, Mt, Msg, Part, Floor, Run, mark, start, get_part, part_of, is_user, is_idle,
  is_taken, or_no_user, holder,
}
use oxlens_sfu.Floor.Queue.{contains, in_q, add_member, remove_member}
use oxlens_sfu.Floor.Participant.{send, set_part, update_part}
use oxlens_sfu.Floor.Framing.{fan-Frames}
use oxlens_sfu.Floor.Standing.{ok_part, fan-rests}
use oxlens_sfu.Floor.Invariant.{Inv, Stands, Holds, Inv-Fits, Frames-Inv, send-Inv, update_part-Inv}
use oxlens_sfu.Floor.Keeps.{
  idle_enter-Inv, prevoke_enter-Inv, regrant-Inv, deny-Inv, taken-speaker, speaks-eq,
}
use oxlens_sfu.Floor.Rooms.{contains-add, contains-remove}
use oxlens_sfu.Floor.Preserved.{part_c-Inv, dequeue-Inv, touch-Inv}
use oxlens_sfu.Floor.Arbiter.{speaks, revoked, idle_enter, set_prev}
use oxlens_sfu.Floor.Receive.{server_rx, rtp, is_ack, is_request, is_np_taken}
use oxlens_sfu.Floor.Membership.{
  ready, perm_down, away, ws_pub_away, ws_leave, ws_join, has_user, newcomer,
}
use oxlens_sfu.Floor.Timers.{t1, t2, t3, t7, t8, t20, t21, max_c20, max_c21, is_part_prevoke}

-- What a participant sends.
pub server_rx-Inv :
    (f : Floor) (u : UserId) (m : Msg) (half : Bool) (t : ℕ)
    → Inv f
    → Inv (server_rx f u m half t).floor
unfolding server_rx
server_rx-Inv f u m half t v =
    let pp = get_part f u in
    if_cases Holds (is_ack m.t && not (is_np_taken (part_of f u))) (λ _. v)
      (λ _.
        if_cases Holds (not (contains f.members u) && is_request m.t) (λ _. denied _ _)
          (λ _.
            if_cases Holds (not (contains f.members u)) (λ _. v)
              (λ c.
                if_cases Holds (is_request m.t && not half) (λ _. denied _ _)
                  (λ _.
                    if_cases Holds (is_request m.t && not pp.pub_room) (λ _. denied _ _)
                      (λ _.
                        if_cases Holds (is_request m.t && not pp.perm) (λ _. denied _ _)
                          (λ _. part_c-Inv _ u m t (member c) v))))))
  where
    denied :
        (l : List String) (c : ℕ)
        → Holds (send (record (start f) { labels = l }) u Mt.deny none c 0)
    denied l c = send-Inv (record (start f) { labels = l }) u Mt.deny none c 0 v

    member : not (contains f.members u) ≡ false → contains f.members u ≡ true
    member e = ground arith

pub rtp-Inv : (f : Floor) (u : UserId) → Inv f → Inv (rtp f u).floor
unfolding rtp
rtp-Inv f u v =
    if_cases Holds (not (contains f.members u)) (λ _. v)
      (λ c. part_c-Inv (start f) u _ 0 (ground arith) v)

pub ready-Inv : (f : Floor) (u : UserId) → Inv f → Inv (ready f u).floor
unfolding ready
ready-Inv f u v =
    if_cases Holds (is_user (holder f) u) (λ _. v)
      (λ _.
        if_cases Holds (has_user (holder f)) (λ _. send-Inv _ u _ _ _ _ v)
          (λ _. send-Inv _ u _ _ _ _ v))

pub perm_down-Inv : (f : Floor) (u : UserId) → Inv f → Inv (perm_down f u).floor
unfolding perm_down
perm_down-Inv f u v =
    if_cases Holds (speaks f u)
      (λ e. let (eg, es) = speaks-eq f u e in prevoke_enter-Inv _ u _ eg es w)
      (λ _.
        if_cases Holds (in_q f u)
          (λ _. deny-Inv _ u _ (dequeue-Inv (set_part (start f) u c).floor u w)) (λ _. w))
  where
    c : Part → Part
    c p = record p { perm = false }

    w : Inv (set_part (start f) u c).floor
    w = touch-Inv (start f) u c (λ p. refl) (λ p. refl) v

away-Inv : (r : Run) (u : UserId) → Inv r.floor → Inv (away r u).floor
unfolding away
away-Inv r u v =
    if_cases Holds (speaks r.floor u) (λ _. idle_enter-Inv _ (Inv-Fits r.floor v))
      (λ _.
        if_cases Holds (revoked r.floor u) (λ _. v)
          (λ _. if_cases Holds (in_q r.floor u) (λ _. dequeue-Inv r.floor u v) (λ _. v)))

pub ws_pub_away-Inv : (f : Floor) (u : UserId) → Inv f → Inv (ws_pub_away f u).floor
unfolding ws_pub_away
ws_pub_away-Inv f u v =
    away-Inv _ u
      (touch-Inv (start f) u (λ p. record p { pub_room = false }) (λ p. refl) (λ p. refl) v)

-- Leaving: whoever is gone need not stand anywhere.
drop_member-Inv :
    (f : Floor) (u : UserId) → Inv f → Inv (record f { members = remove_member u f.members })
drop_member-Inv f u v = record {
  shape = v.shape;
  idle_empty = v.idle_empty;
  stands = λ w c. v.stands w (ground (arith, contains-remove u f.members w));
}

pub ws_leave-Inv : (f : Floor) (u : UserId) → Inv f → Inv (ws_leave f u).floor
unfolding ws_leave
ws_leave-Inv f u v =
    update_part-Inv _ u (λ p. record p { retry = false; part = some P.releasing })
      (drop_member-Inv gone.floor u (
        away-Inv _ u (
          touch-Inv (mark "FLR.S.ws.leave" (start f)) u (λ p. record p { pub_room = false })
            (λ p. refl) (λ p. refl) v)))
      (λ c. ground (arith, contains-remove u gone.floor.members u))
  where
    gone : Run
    gone =
        away (set_part (mark "FLR.S.ws.leave" (start f)) u (λ p. record p { pub_room = false })) u

-- Joining: the newcomer stands as the holder of the floor makes it.
newcomer-ok :
    (f : Floor) (s : Bool)
    → (let taken = has_user (holder f) in
        ok_part f.g s (some (if taken then P.np_taken else P.np_idle)) taken ≡ true)
unfolding holder
newcomer-ok f s = ground arith

add_member-Inv :
    (f : Floor) (u : UserId) (c : Part → Part)
    → Inv f
    → ok_part f.g (is_user f.speaker u) (c (get_part f u)).part (c (get_part f u)).g_taken ≡ true
    → Inv (update_part (record f { members = add_member u f.members }) u c)
add_member-Inv f u c v h = record {
  shape = v.shape;
  idle_empty = v.idle_empty;
  stands = λ w m. one w m (Bool-cases (w == u));
}
  where
    f' : Floor
    f' = update_part (record f { members = add_member u f.members }) u c

    one :
        (w : UserId)
        → contains f'.members w ≡ true
        → ((w == u) ≡ true) ⊎ ((w == u) ≡ false)
        → Stands f' w
    one w m (inl e) = rw e (let k : w ≡ u = ground arith in rw k h)
    one w m (inr e) = rw e (v.stands w (ground (arith, contains-add u f.members w)))

pub ws_join-Inv : (f : Floor) (u : UserId) (perm : Bool) → Inv f → Inv (ws_join f u perm).floor
unfolding ws_join
ws_join-Inv f u perm v =
    add_member-Inv come.floor u
      (newcomer
        (has_user (holder (record come.floor { members = add_member u come.floor.members }))) perm)
      come-Inv (unfold holder in newcomer-ok come.floor _)
  where
    come : Run
    come =
        if revoked f u
        then idle_enter (set_prev f.revoking (mark "FLR.S.ws.join_revoking" (start f)))
        else mark "FLR.S.ws.join" (start f)

    come-Inv : Holds come
    come-Inv = if_cases Holds (revoked f u) (λ _. idle_enter-Inv _ (Inv-Fits f v)) (λ _. v)

-- The timers.
pub t1-Inv : (f : Floor) → Inv f → Inv (t1 f).floor
unfolding t1
t1-Inv f v =
    if_cases (λ (r : Run). Inv (idle_enter r).floor) (is_taken f.g)
      (λ _. idle_enter-Inv _ (Inv-Fits f v)) (λ _. idle_enter-Inv _ (Inv-Fits f v))

pub t2-Inv : (f : Floor) → is_taken f.g ≡ true → Inv f → Inv (t2 f).floor
unfolding t2
t2-Inv f e v =
    let (eg, es) = taken-speaker f e v.shape in
    prevoke_enter-Inv _ (or_no_user f.speaker) _ eg es (
      touch-Inv (mark "FLR.S.G.TAKEN.T2" (start f)) (or_no_user f.speaker)
        (λ p. record p { retry = true }) (λ p. refl) (λ p. refl) v)

pub t3-Inv : (f : Floor) → Inv f → Inv (t3 f).floor
unfolding t3
t3-Inv f v = idle_enter-Inv _ (Inv-Fits f v)

rests-ok :
    (g : G) (s : Bool) (p : Part)
    → is_idle g ≡ true
    → ok_part G.idle false p.part p.g_taken ≡ true
    → ok_part g s p.part p.g_taken ≡ true
rests-ok g s p e h = ground arith

pub t7-Inv : (f : Floor) → is_idle f.g ≡ true → Inv f → Inv (t7 f).floor
unfolding t7
t7-Inv f e v =
    Frames-Inv (record f { c7 = u32 (f.c7 + 1) }) _ (fan-Frames _ _ _) v.shape v.idle_empty
      (λ u c.
        rests-ok f.g _ (get_part (t7 f).floor u) e (fan-rests _ f.prev u (Inv-Fits f v u c) c))

pub t20-Inv : (f : Floor) → is_taken f.g ≡ true → Inv f → Inv (t20 f).floor
unfolding t20
t20-Inv f e v =
    let (eg, es) = taken-speaker f e v.shape in
    let w : Inv (record f { c20 = u32 (f.c20 + 1) }) = record {
      shape = v.shape;
      idle_empty = v.idle_empty;
      stands = v.stands;
    } in
    if_cases Holds (ltb f.c20 max_c20) (λ _. regrant-Inv _ (or_no_user f.speaker) _ eg es w)
      (λ _. w)

pub t8-Inv : (f : Floor) (u : UserId) → Inv f → Inv (t8 f u).floor
unfolding t8
t8-Inv f u v =
    let w =
      touch-Inv (start f) u (λ p. record p { c8 = u32 (p.c8 + 1) }) (λ p. refl) (λ p. refl) v in
    if_cases Holds (is_part_prevoke (part_of f u)) (λ _. send-Inv _ u _ _ _ _ w)
      (λ _. send-Inv _ u _ _ _ _ w)

pub t21-Inv : (f : Floor) (u : UserId) → Inv f → Inv (t21 f u).floor
unfolding t21
t21-Inv f u v =
    let w =
      touch-Inv (start f) u (λ p. record p { c21 = u32 (p.c21 + 1) }) (λ p. refl) (λ p. refl) v in
    if_cases Holds (ltb (get_part f u).c21 max_c21) (λ _. send-Inv _ u _ _ _ _ w) (λ _. w)
