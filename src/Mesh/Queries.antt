-- ===== src/Mesh/Queries.antt =====
-- crates/oxmesh/src/core.rs: the life of a query that a node handles, from its start to its end.
-- Every operation of the code on the map of queries treats each of them alone, so this is one of
-- them, with how often its origin was told that it ended, and whether the outbox of the session that
-- asked refuses a message now, as its request lane is full or it is closing: the code does not look
-- at the result of this push. A set of targets is a list.
-- Left out are the choice of the targets and the replies, which change nothing of this.
use oxlens_sfu.Base.{
  ℕ, zero, suc, ◌+◌, ◌==◌, Bool, true, false, not, ◌||◌, List, [], ◌∷◌, Option, none, some, leb,
  if◌then◌else◌,
}
pub mod Ending

-- `Target` and `Origin`: the node itself, by the number of a queryable, or a session.
pub data Target : Type 0 where
  local : ℕ → Target
  sess : ℕ → Target

pub data Origin : Type 0 where
  local : Origin
  sess : ℕ → Origin

pub record Pending : Type 0 where
  pub origin : Origin
  pub targets : List Target
  pub deadline : ℕ

pub record Query : Type 0 where
  pub pending : Option Pending
  pub ends : ℕ
  pub refuses : Bool

unfoldable pub same_target : Target → Target → Bool
same_target (Target.local a) (Target.local b) = a == b
same_target (Target.sess a) (Target.sess b) = a == b
same_target _ _ = false

unfoldable pub has_target : Target → List Target → Bool
has_target t [] = false
has_target t (x ∷ xs) = same_target t x || has_target t xs

unfoldable pub remove_target : Target → List Target → List Target
remove_target t [] = []
remove_target t (x ∷ xs) =
    let rest = remove_target t xs in if same_target t x then rest else x ∷ rest

unfoldable pub is_from : ℕ → Origin → Bool
is_from uid Origin.local = false
is_from uid (Origin.sess o) = o == uid

-- A local origin hears the end as its channel is dropped, a session by a `Final` that is queued.
unfoldable pub hears : Origin → Bool → Bool
hears Origin.local refuses = true
hears (Origin.sess o) refuses = not refuses

unfoldable pub finish_on : Option Pending → Query → Query
finish_on none q = q
finish_on (some p) q = record q {
  pending = none;
  ends = (if hears p.origin q.refuses then suc q.ends else q.ends);
}

unfoldable pub finish : Query → Query
finish q = finish_on q.pending q

-- What is left of a query whose targets have changed.
unfoldable pub with_targets : List Target → Pending → Query → Query
with_targets [] p q = finish q
with_targets (t ∷ ts) p q = record q {
  pending = some (record { origin = p.origin; targets = t ∷ ts; deadline = p.deadline });
}

unfoldable pub target_done_on : Option Pending → Target → Query → Query
target_done_on none t q = q
target_done_on (some p) t q =
    if has_target t p.targets then with_targets (remove_target t p.targets) p q else q

unfoldable pub target_done : Target → Query → Query
target_done t q = target_done_on q.pending t q

-- The part of `on_tick` for a query.
unfoldable pub tick_on : Option Pending → ℕ → Query → Query
tick_on none now q = q
tick_on (some p) now q = if leb p.deadline now then finish q else q

unfoldable pub tick : ℕ → Query → Query
tick now q = tick_on q.pending now q

-- The part of `close` for a query: that of its origin goes without a word.
unfoldable pub closed_on : Option Pending → ℕ → Query → Query
closed_on none uid q = q
closed_on (some p) uid q =
    if is_from uid p.origin
    then record q { pending = none }
    else if has_target (Target.sess uid) p.targets
    then with_targets (remove_target (Target.sess uid) p.targets) p q
    else q

unfoldable pub closed : ℕ → Query → Query
closed uid q = closed_on q.pending uid q

-- The targets that could not be asked are done at once.
unfoldable pub refuse_all : List Target → Query → Query
refuse_all [] q = q
refuse_all (t ∷ ts) q = refuse_all ts (target_done t q)

unfoldable pub end_if_alone : Option Pending → Query → Query
end_if_alone none q = q
end_if_alone (some p) q = elim p.targets [ [] ↦ finish q | t ∷ ts ↦ q ]

unfoldable pub settle : Query → Query
settle q = end_if_alone q.pending q

-- `route_get`, with its targets and those of them that could not be asked.
unfoldable pub route_get : Origin → List Target → List Target → ℕ → Bool → Query
route_get o ts refused deadline refuses = settle (
    refuse_all refused (record {
      pending = some (record { origin = o; targets = ts; deadline = deadline });
      ends = 0;
      refuses = refuses;
    }))
