-- ===== src/Mesh/Queries/Ending.antt =====
-- crates/oxmesh/src/core.rs: histories of a query.
use oxlens_sfu.Base.{
  ℕ, suc, Bool, if◌then◌else◌, ◌≤◌, ◌≡◌, ◌∙◌, refl, sym, ap, true, false, List, [], ◌∷◌, Option,
  none, some, leb, All, arith, if_cases,
}
use mathlib.Core.Path.{subst}
use oxlens_sfu.Mesh.Queries.{
  Target, Origin, Pending, Query, has_target, remove_target, is_from, hears, finish_on, finish,
  with_targets, target_done_on, target_done, tick_on, tick, closed_on, closed, refuse_all,
  end_if_alone, settle, route_get,
}

-- How often the origin was told of an end: once, or at most once where its outbox may refuse it.
Once : Bool → ℕ → Type 0
Once true n = n ≡ 1
Once false n = n ≤ 1

-- The query waits and its origin was told nothing, or it ended.
LivesOn : Bool → Origin → ℕ → Option Pending → ℕ → Type 0
LivesOn sure o d none n = Once sure n
LivesOn sure o d (some p) n = (p.origin ≡ o) × (p.deadline ≡ d) × (n ≡ 0)

Lives : Bool → Origin → ℕ → Query → Type 0
Lives sure o d q = LivesOn sure o d q.pending q.ends × (sure ≡ true → hears o q.refuses ≡ true)

once :
    (sure b : Bool) (n : ℕ) → n ≡ 0 → (sure ≡ true → b ≡ true) → Once sure (if b then suc n else n)
unfolding Once
once true b n e h = let c = h refl in ground arith
once false b n e h = ground arith

module _ (sure : Bool) (o : Origin) (d : ℕ) where
  -- The invariant, where what is pending is known.
  known :
      (q : Query) (p : Option Pending)
      → q.pending ≡ p
      → Lives sure o d q
      → LivesOn sure o d p q.ends
  unfolding Lives
  known q p e h = subst (λ x. LivesOn sure o d x q.ends) e h.0

  finish_on-Lives :
      (p : Option Pending) (q : Query)
      → q.pending ≡ p
      → Lives sure o d q
      → Lives sure o d (finish_on p q)
  unfolding Lives LivesOn finish_on
  finish_on-Lives none q e h = h
  finish_on-Lives (some p) q e h =
      let i = known q (some p) e h in
      (
        once sure (hears p.origin q.refuses) q.ends i.2
            (λ s. ap (λ x. hears x q.refuses) i.0 ∙ h.1 s),
        h.1,
      )

  with_targets-Lives :
      (ts : List Target) (p : Pending) (q : Query)
      → q.pending ≡ some p
      → Lives sure o d q
      → Lives sure o d (with_targets ts p q)
  unfolding with_targets finish Lives LivesOn
  with_targets-Lives [] p q e h = finish_on-Lives q.pending q refl h
  with_targets-Lives (t ∷ ts) p q e h = (known q (some p) e h, h.1)

  target_done-Lives :
      (t : Target) (q : Query) (p : Option Pending)
      → q.pending ≡ p
      → Lives sure o d q
      → Lives sure o d (target_done_on p t q)
  unfolding target_done_on
  target_done-Lives t q none e h = h
  target_done-Lives t q (some p) e h =
      if_cases (Lives sure o d) (has_target t p.targets)
        (λ _. with_targets-Lives (remove_target t p.targets) p q e h) (λ _. h)

  tick-Lives :
      (now : ℕ) (q : Query) (p : Option Pending)
      → q.pending ≡ p
      → Lives sure o d q
      → Lives sure o d (tick_on p now q)
  unfolding tick_on finish
  tick-Lives now q none e h = h
  tick-Lives now q (some p) e h =
      if_cases (Lives sure o d) (leb p.deadline now) (λ _. finish_on-Lives q.pending q refl h)
        (λ _. h)

  waits : (q : Query) (p : Pending) → q.pending ≡ some p → Lives sure o d q → p.origin ≡ o
  unfolding LivesOn
  waits q p e h = (known q (some p) e h).0

  closed-Lives :
      (uid : ℕ) (q : Query) (p : Option Pending)
      → is_from uid o ≡ false
      → q.pending ≡ p
      → Lives sure o d q
      → Lives sure o d (closed_on p uid q)
  unfolding closed_on
  closed-Lives uid q none f e h = h
  closed-Lives uid q (some p) f e h =
      let i = ap (is_from uid) (waits q p e h) ∙ f in
      if_cases (Lives sure o d) (is_from uid p.origin) (λ x. absurd (ground arith))
        (λ _.
          if_cases (Lives sure o d) (has_target (Target.sess uid) p.targets)
            (λ _. with_targets-Lives (remove_target (Target.sess uid) p.targets) p q e h) (λ _. h))

  refuse_all-Lives :
      (ts : List Target) (q : Query) → Lives sure o d q → Lives sure o d (refuse_all ts q)
  unfolding refuse_all target_done
  refuse_all-Lives [] q h = h
  refuse_all-Lives (t ∷ ts) q h =
      refuse_all-Lives ts (target_done t q) (target_done-Lives t q q.pending refl h)

  end_if_alone-Lives :
      (q : Query) (p : Option Pending)
      → q.pending ≡ p
      → Lives sure o d q
      → Lives sure o d (end_if_alone p q)
  unfolding end_if_alone finish
  end_if_alone-Lives q none e h = h
  end_if_alone-Lives q (some p) e h =
      elim p.targets as (λ ts. Lives sure o d (elim ts [ [] ↦ finish q | t ∷ ts ↦ q ])) [
        | [] ↦ finish_on-Lives q.pending q refl h
        | t ∷ ts ↦ h
      ]

  route_get-Lives :
      (ts refused : List Target) (refuses : Bool)
      → (sure ≡ true → hears o refuses ≡ true)
      → Lives sure o d (route_get o ts refused d refuses)
  unfolding route_get settle Lives LivesOn
  route_get-Lives ts refused refuses c =
      let q : Query = record {
        pending = some (record { origin = o; targets = ts; deadline = d });
        ends = 0;
        refuses = refuses;
      } in
      end_if_alone-Lives _ _ refl (refuse_all-Lives refused q ((refl, refl, refl), c))

-- What happens to a query after its start; the outbox of the session that asked may fill and drain.
pub data Event : Type 0 where
  done : Target → Event
  ticks : ℕ → Event
  closes : ℕ → Event
  refuses : Bool → Event

unfoldable pub step : Event → Query → Query
step (Event.done t) q = target_done t q
step (Event.ticks now) q = tick now q
step (Event.closes uid) q = closed uid q
step (Event.refuses b) q = record q { refuses = b }

unfoldable pub run : List Event → Query → Query
run [] q = q
run (e ∷ es) q = run es (step e q)

-- The session that asked is not closed, and where it counts its outbox takes an end.
unfoldable pub Spares : Bool → Origin → Event → Type 0
Spares sure o (Event.closes uid) = is_from uid o ≡ false
Spares sure o (Event.refuses b) = sure ≡ true → hears o b ≡ true
Spares sure o _ = Unit {0}

run-Lives :
    (sure : Bool) (o : Origin) (d : ℕ) (es : List Event) (q : Query)
    → All (Spares sure o) es
    → Lives sure o d q
    → Lives sure o d (run es q)
unfolding run step Spares target_done tick closed Lives
run-Lives sure o d [] q s h = h
run-Lives sure o d (Event.done t ∷ es) q (_, s) h =
    run-Lives sure o d es _ s (target_done-Lives sure o d t q q.pending refl h)
run-Lives sure o d (Event.ticks now ∷ es) q (_, s) h =
    run-Lives sure o d es _ s (tick-Lives sure o d now q q.pending refl h)
run-Lives sure o d (Event.closes uid ∷ es) q (i, s) h =
    run-Lives sure o d es _ s (closed-Lives sure o d uid q q.pending i refl h)
run-Lives sure o d (Event.refuses b ∷ es) q (i, s) h = run-Lives sure o d es _ s (h.0, i)

Ended : Bool → Query → Type 0
Ended sure q = (q.pending ≡ none) × Once sure q.ends

tick_on-Ended :
    (sure : Bool) (o : Origin) (d now : ℕ) (q : Query) (p : Option Pending)
    → d ≤ now
    → q.pending ≡ p
    → Lives sure o d q
    → Ended sure (tick_on p now q)
unfolding tick_on finish LivesOn Ended
tick_on-Ended sure o d now q none l e h = (e, known sure o d q none e h)
tick_on-Ended sure o d now q (some p) l e h =
    let i = known sure o d q (some p) e h in
    let t : leb p.deadline now ≡ true = let j = i.1 in ground arith in
    let f = finish_on-Lives sure o d (some p) q e h in
    rw t (
      subst (λ x. ((finish_on x q).pending ≡ none) × Once sure (finish_on x q).ends) (sym e)
        (unfold finish_on Lives LivesOn in (refl, f.0)))

step-Ended : (sure : Bool) (e : Event) (q : Query) → Ended sure q → Ended sure (step e q)
unfolding step Ended target_done tick closed
step-Ended sure (Event.done t) q h =
    subst (λ p. Ended sure (target_done_on p t q)) (sym h.0) (unfold target_done_on in h)
step-Ended sure (Event.ticks now) q h =
    subst (λ p. Ended sure (tick_on p now q)) (sym h.0) (unfold tick_on in h)
step-Ended sure (Event.closes uid) q h =
    subst (λ p. Ended sure (closed_on p uid q)) (sym h.0) (unfold closed_on in h)
step-Ended sure (Event.refuses b) q h = h

run-Ended : (sure : Bool) (es : List Event) (q : Query) → Ended sure q → Ended sure (run es q)
unfolding run
run-Ended sure [] q h = h
run-Ended sure (e ∷ es) q h = run-Ended sure es (step e q) (step-Ended sure e q h)

ends :
    (sure : Bool) (o : Origin) (ts refused : List Target) (d now : ℕ) (b : Bool)
    (es fs : List Event)
    → (sure ≡ true → hears o b ≡ true)
    → All (Spares sure o) es
    → d ≤ now
    → Ended sure (run fs (tick now (run es (route_get o ts refused d b))))
unfolding tick
ends sure o ts refused d now b es fs c s l =
    let q = run es (route_get o ts refused d b) in
    run-Ended sure fs (tick now q) (
      tick_on-Ended sure o d now q q.pending l refl
        (run-Lives sure o d es _ s (route_get-Lives sure o d ts refused b c)))

-- The session that asked is not closed.
unfoldable pub IsOpen : Origin → Event → Type 0
IsOpen o (Event.closes uid) = is_from uid o ≡ false
IsOpen o _ = Unit {0}

-- Nor does its outbox refuse a message at any time.
unfoldable pub IsHeard : Origin → Event → Type 0
IsHeard o (Event.closes uid) = is_from uid o ≡ false
IsHeard o (Event.refuses b) = hears o b ≡ true
IsHeard o _ = Unit {0}
