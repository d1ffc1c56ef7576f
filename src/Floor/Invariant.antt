-- ===== src/Floor/Invariant.antt =====
-- crates/oxsfud/src/flr/core.rs: the invariant of the floor, and the steps by which it is kept.
use oxlens_sfu.Base.{
  ℕ, ◌==◌, ◌≡◌, refl, Bool, true, false, ◌⊎◌, [], ◌∷◌, ◌++◌, Option, none, some, inl, inr, arith,
  Bool-cases,
}
use oxlens_sfu.Floor.Types.{UserId, G, Mt, Part, Floor, Run, msg, get_part, is_user, is_idle}
use oxlens_sfu.Floor.Queue.{contains}
use oxlens_sfu.Floor.Participant.{part_a, send, fan, update_part}
use oxlens_sfu.Floor.Framing.{Frames, Frames-trans, part_a-Frames, fan-Frames}
use oxlens_sfu.Floor.Standing.{
  ok_part, fits, hears, part_a-fits_all, fan-fits, fan-rests, fan-hears,
}
use oxlens_sfu.Floor.Arbiter.{enter_taken, idle_enter_at}

-- A speaker exactly while the floor is taken, somebody to take it from exactly while it is revoked.
abbrev pub ok_shape : G → Option UserId → Option UserId → Bool
ok_shape G.idle none none = true
ok_shape G.taken (some s) none = true
ok_shape G.prevoke none (some s) = true
ok_shape _ _ _ = false

-- `u` stands as the state of the floor allows.
abbrev pub Stands : Floor → UserId → Type 0
Stands f u = ok_part f.g (is_user f.speaker u) (get_part f u).part (get_part f u).g_taken ≡ true

pub record Inv (f : Floor) : Type 0 where
  pub shape : ok_shape f.g f.speaker f.revoking ≡ true
  pub idle_empty : is_idle f.g ≡ true → f.queue ≡ []
  pub stands : (u : UserId) → contains f.members u ≡ true → Stands f u

-- What is left of it in the middle of a change of the floor.
abbrev pub Fits : Floor → Type 0
Fits f = (u : UserId) → contains f.members u ≡ true → fits (get_part f u) ≡ true

-- The invariant in the middle of an operation.
abbrev pub Holds : Run → Type 0
Holds r = Inv r.floor

ok_part-fits : (g : G) (s : Bool) (p : Part) → ok_part g s p.part p.g_taken ≡ true → fits p ≡ true
ok_part-fits g s p h = ground arith

pub Inv-Fits : (f : Floor) → Inv f → Fits f
Inv-Fits f v u c = ok_part-fits f.g (is_user f.speaker u) (get_part f u) (v.stands u c)

-- A change of one participant's record.
pub update_part-Inv :
    (f : Floor) (u : UserId) (c : Part → Part)
    → Inv f
    → (let p = c (get_part f u) in
        contains f.members u ≡ true → ok_part f.g (is_user f.speaker u) p.part p.g_taken ≡ true)
    → Inv (update_part f u c)
update_part-Inv f u c v h = record {
  shape = v.shape;
  idle_empty = v.idle_empty;
  stands = λ w m. one w m (Bool-cases (w == u));
}
  where
    one :
        (w : UserId)
        → contains f.members w ≡ true
        → ((w == u) ≡ true) ⊎ ((w == u) ≡ false)
        → Stands (update_part f u c) w
    one w m (inl e) = rw e (let e' : w ≡ u = ground arith in rw e' (h (rw e' at m)))
    one w m (inr e) = rw e (v.stands w m)

-- One that keeps the participant's state.
pub update_part-Inv_same :
    (f : Floor) (u : UserId) (c : Part → Part)
    → ((p : Part) → (c p).part ≡ p.part)
    → ((p : Part) → (c p).g_taken ≡ p.g_taken)
    → Inv f
    → Inv (update_part f u c)
update_part-Inv_same f u c hp hg v =
    update_part-Inv f u c v (λ m. rw (hp (get_part f u), hg (get_part f u)) (v.stands u m))

pub get_part-update :
    (f : Floor) (u : UserId) (c : Part → Part) → get_part (update_part f u c) u ≡ c (get_part f u)
get_part-update f u c = let e : (u == u) ≡ true = ground arith in rw e

pub seq-Inv : (f : Floor) (s : ℕ) → Inv f → Inv (record f { seq = s })
seq-Inv f s v = record { shape = v.shape; idle_empty = v.idle_empty; stands = v.stands }

pub send-Inv :
    (r : Run) (u : UserId) (t : Mt) (a : Option UserId) (n d : ℕ)
    → Inv r.floor
    → Inv (send r u t a n d).floor
unfolding send
send-Inv r u t a n d v = seq-Inv r.floor _ v

-- The floor goes to nobody: everybody rests.
pub idle_enter_at-empty :
    (r : Run) → r.floor.queue ≡ [] → Fits r.floor → Inv (idle_enter_at [] r).floor
unfolding idle_enter_at
idle_enter_at-empty r q v = rw (fan-Frames _ _ _) (record {
  shape = refl;
  idle_empty = λ _. q;
  stands = λ u c. fan-rests _ r.floor.prev u (v u c) c;
})

-- A change of the records that leaves everybody where the state of the floor allows.
pub Frames-Inv :
    (f f' : Floor)
    → Frames f f'
    → ok_shape f.g f.speaker f.revoking ≡ true
    → (is_idle f.g ≡ true → f.queue ≡ [])
    → ((u : UserId)
        → contains f.members u ≡ true
        → ok_part f.g (is_user f.speaker u) (get_part f' u).part (get_part f' u).g_taken ≡ true)
    → Inv f'
Frames-Inv f f' h shape empty stands =
    rw h (record { shape = shape; idle_empty = empty; stands = stands })

hears-ok : (s : Bool) (p : Part) → hears p ≡ true → ok_part G.taken s p.part p.g_taken ≡ true
hears-ok s p h = ground arith

-- The speaker is told of the grant, all others that the floor is taken.
module _ (r : Run) (sp : UserId) (v : Fits r.floor) (u : UserId)
    (c : contains r.floor.members u ≡ true) (n d : ℕ) where
  told : Run
  told = part_a r sp (msg Mt.granted none n d)

  announced : Run
  announced = fan told (msg Mt.taken (some sp) 0 0) (some sp)

  told-fits : fits (get_part told.floor u) ≡ true
  unfolding told
  told-fits = part_a-fits_all r sp _ u (v u c)

  told-contains : contains told.floor.members u ≡ true
  unfolding told
  told-contains = rw (part_a-Frames r sp _) c

  announced-ok :
      ok_part G.taken
        (sp == u)
        (get_part announced.floor u).part
        (get_part announced.floor u).g_taken
      ≡ true
  unfolding announced
  announced-ok = elim (Bool-cases (sp == u)) [
    | inl e ↦ rw e (fan-fits told _ (some sp) u told-fits)
    | inr e ↦
        hears-ok (sp == u) (get_part announced.floor u)
          (fan-hears told sp u told-fits told-contains e)
  ]

-- The floor goes to a member: all others listen.
pub enter_taken-Inv :
    (r : Run) (sp : UserId)
    → r.floor.revoking ≡ none
    → Fits r.floor
    → Inv
        (enter_taken (record r { floor = record r.floor { g = G.taken; speaker = some sp } })).floor
unfolding enter_taken
enter_taken-Inv r sp er v =
    Frames-Inv f1 _ (Frames-trans f1 _ _ (part_a-Frames r1 sp _) (fan-Frames _ _ _)) (rw er)
      (λ e. cc)
      (λ u c. unfold announced told in announced-ok r1 sp v u c r.floor.sprio r.floor.t2_secs)
  where
    f1 : Floor
    f1 = record r.floor { g = G.taken; speaker = some sp; idle_bcast = false }

    r1 : Run
    r1 = record r { floor = f1; labels = r.labels ++ ("FLR.S.G.TAKEN.enter" ∷ []) }
