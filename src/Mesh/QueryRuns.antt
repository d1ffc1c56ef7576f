-- ===== src/Mesh/QueryRuns.antt =====
-- crates/oxmesh/src/core.rs: the life of concrete queries.
use oxlens_sfu.Base.{◌≡◌, refl, true, false, List, [], ◌∷◌}
use oxlens_sfu.Mesh.Queries.{
  Target, Origin, Query, same_target, has_target, remove_target, hears, finish_on, finish,
  with_targets, target_done_on, target_done, tick_on, tick, refuse_all, end_if_alone, settle,
  route_get,
}
use oxlens_sfu.Mesh.Queries.Ending.{Event, step, run}

-- A query of session 4 to two targets, one of which could not be asked; then the other session goes.
abbrev two_targets : List Target
two_targets = Target.sess 5 ∷ Target.sess 6 ∷ []

abbrev other_goes : List Event
other_goes = Event.done (Target.local 8) ∷ Event.closes 5 ∷ []

abbrev after_tick : Query
after_tick = run (Event.ticks 900 ∷ []) (
    tick 700
      (run other_goes (route_get (Origin.sess 4) two_targets (Target.sess 6 ∷ []) 600 false)))

abbrev after_full : Query
after_full =
    run (Event.refuses false ∷ Event.ticks 900 ∷ []) (
      tick 700 (run (Event.refuses true ∷ []) (route_get (Origin.sess 4) two_targets [] 600 false)))

-- The session is never told.
end_lost : after_full.ends ≡ 0
unfolding run step route_get settle end_if_alone refuse_all tick tick_on finish finish_on hears
end_lost = refl

-- The last target ends a query before its deadline.
last_target_ends :
    (target_done
      (Target.sess 5)
      (route_get (Origin.sess 4) two_targets (Target.sess 6 ∷ []) 600 false)).ends
    ≡ 1
unfolding route_get settle end_if_alone refuse_all target_done target_done_on has_target same_target
    remove_target with_targets finish finish_on hears
last_target_ends = refl
