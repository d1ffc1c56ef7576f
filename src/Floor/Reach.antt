-- ===== src/Floor/Reach.antt =====
-- crates/oxsfud/src/flr/core.rs: the floors that a room passes through.
use oxlens_sfu.Base.{
  ℕ, ◌≡◌, refl, Bool, true, false, ◌⊎◌, List, [], ◌∷◌, Option, none, some, inl, inr, arith,
  if_cases,
}
use mathlib.Core.Path.{subst}
use oxlens_sfu.Floor.Types.{
  UserId, G, P, Part, Floor, TimerName, start, get_part, part_of, is_user, is_idle, is_taken,
  or_no_user, new,
}
use oxlens_sfu.Floor.Queue.{contains}
use oxlens_sfu.Floor.Standing.{ok_part}
use oxlens_sfu.Floor.Invariant.{Inv, Holds}
use oxlens_sfu.Floor.Preserved.{touch-Inv}
use oxlens_sfu.Floor.Membership.{perm_up, ws_pub_select}
use oxlens_sfu.Floor.Timers.{t2, t9, armed_server, armed_participant}
use oxlens_sfu.Floor.Events.{Event, step, run, fire, fire_due, armed_among, armed_for}
use oxlens_sfu.Floor.Steps.{
  server_rx-Inv, rtp-Inv, ready-Inv, perm_down-Inv, ws_pub_away-Inv, ws_leave-Inv, ws_join-Inv,
  t1-Inv, t2-Inv, t3-Inv, t7-Inv, t20-Inv, t8-Inv, t21-Inv,
}

-- What the code finds armed. A participant has none of the timers of the floor.
pub armed-taken :
    (f : Floor) (t : TimerName) (user : Option UserId)
    → armed_among t (armed_for f user) ≡ true
    → ((t ≡ TimerName.t2) ⊎ (t ≡ TimerName.t20))
    → is_taken f.g ≡ true
unfolding armed_server armed_participant
armed-taken f t none a h = ground arith
armed-taken f t (some u) a h = ground arith

armed-idle :
    (f : Floor) (user : Option UserId)
    → armed_among TimerName.t7 (armed_for f user) ≡ true
    → is_idle f.g ≡ true
unfolding armed_server armed_participant
armed-idle f none a = ground arith
armed-idle f (some u) a = ground arith

fire-Inv :
    (f : Floor) (t : TimerName) (user : Option UserId)
    → armed_among t (armed_for f user) ≡ true
    → Inv f
    → Inv (fire f t (or_no_user user)).floor
unfolding fire t9
fire-Inv f TimerName.t1 user a v = t1-Inv f v
fire-Inv f TimerName.t2 user a v = t2-Inv f (armed-taken f _ user a (inl refl)) v
fire-Inv f TimerName.t3 user a v = t3-Inv f v
fire-Inv f TimerName.t7 user a v = t7-Inv f (armed-idle f user a) v
fire-Inv f TimerName.t8 user a v = t8-Inv f (or_no_user user) v
fire-Inv f TimerName.t9 user a v =
    touch-Inv (start f) (or_no_user user) (λ p. record p { retry = false }) (λ p. refl) (λ p. refl)
      v
fire-Inv f TimerName.t20 user a v = t20-Inv f (armed-taken f _ user a (inr refl)) v
fire-Inv f TimerName.t21 user a v = t21-Inv f (or_no_user user) v

-- Every event keeps the invariant of the floor.
pub step-Inv : (f : Floor) (e : Event) → Inv f → Inv (step f e).floor
unfolding step perm_up ws_pub_select fire_due
step-Inv f (Event.rx u m half t) v = server_rx-Inv f u m half t v
step-Inv f (Event.media u) v = rtp-Inv f u v
step-Inv f (Event.readied u) v = ready-Inv f u v
step-Inv f (Event.permitted u) v =
    touch-Inv (start f) u (λ p. record p { perm = true }) (λ p. refl) (λ p. refl) v
step-Inv f (Event.forbidden u) v = perm_down-Inv f u v
step-Inv f (Event.selected u) v =
    touch-Inv (start f) u (λ p. record p { pub_room = true }) (λ p. refl) (λ p. refl) v
step-Inv f (Event.deselected u) v = ws_pub_away-Inv f u v
step-Inv f (Event.left u) v = ws_leave-Inv f u v
step-Inv f (Event.joined u perm) v = ws_join-Inv f u perm v
step-Inv f (Event.due t user) v =
    if_cases Holds (armed_among t (armed_for f user)) (λ a. fire-Inv f t user a v) (λ _. v)

pub new-Inv : (qmax t2 : ℕ) → Inv (new qmax t2)
unfolding new contains
new-Inv qmax t2 = record { shape = refl; idle_empty = λ _. refl; stands = λ u c. cc }

pub run-Inv : (f : Floor) (es : List Event) → Inv f → Inv (run f es)
unfolding run
run-Inv f [] v = v
run-Inv f (e ∷ es) v = run-Inv (step f e).floor es (step-Inv f e v)

permitted-speaks :
    (g : G) (s : Bool) (p : Part)
    → p.part ≡ some P.permitted
    → ok_part g s p.part p.g_taken ≡ true
    → (g ≡ G.taken) × (s ≡ true)
permitted-speaks g s p e h = ground arith

idle-rests :
    (g : G) (s : Bool) (p : Part)
    → is_idle g ≡ true
    → ok_part g s p.part p.g_taken ≡ true
    → ((p.part ≡ some P.np_idle) ⊎ (p.part ≡ some P.np_sends)) × (p.g_taken ≡ false)
idle-rests g s p e h = ground arith

-- In every floor that a new room reaches, a member that is permitted to speak is the speaker of a
-- taken floor; so no two members are permitted at once.
pub run-exclusive :
    (qmax t2 : ℕ) (es : List Event) (f : Floor) (u v : UserId)
    → run (new qmax t2) es ≡ f
    → contains f.members u ≡ true
    → contains f.members v ≡ true
    → part_of f u ≡ some P.permitted
    → part_of f v ≡ some P.permitted
    → (f.g ≡ G.taken) × (f.speaker ≡ some u) × (u ≡ v)
unfolding part_of
run-exclusive qmax t2 es f u v e cu cv pu pv =
    let i : Inv f = subst Inv e (run-Inv (new qmax t2) es (new-Inv qmax t2)) in
    let (a, b) = permitted-speaks f.g (is_user f.speaker u) (get_part f u) pu (i.stands u cu) in
    let (c, d) = permitted-speaks f.g (is_user f.speaker v) (get_part f v) pv (i.stands v cv) in
    (a, ground arith, ground arith)

-- In every floor that a new room reaches and that nobody holds, nobody waits, and every member is
-- either at rest or has been told to stop sending, with no note left that the floor is taken.
pub run-idle_rests :
    (qmax t2 : ℕ) (es : List Event) (f : Floor) (u : UserId)
    → run (new qmax t2) es ≡ f
    → f.g ≡ G.idle
    → contains f.members u ≡ true
    → (f.queue ≡ [])
      × ((part_of f u ≡ some P.np_idle) ⊎ (part_of f u ≡ some P.np_sends))
      × ((get_part f u).g_taken ≡ false)
unfolding part_of
run-idle_rests qmax t2 es f u e eg c =
    let i : Inv f = subst Inv e (run-Inv (new qmax t2) es (new-Inv qmax t2)) in
    let k : is_idle f.g ≡ true = rw eg in
    let (a, b) = idle-rests f.g (is_user f.speaker u) (get_part f u) k (i.stands u c) in
    (i.idle_empty k, a, b)
