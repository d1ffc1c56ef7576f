-- ===== src/Mesh/SubIndex.antt =====
-- crates/oxmesh/src/core.rs: the index of subscriptions. Its maps and sets are functions; a set
-- that is empty and one that is not there hold the same.
use oxlens_sfu.Base.{
  ℕ, ◌+◌, ◌==◌, Bool, true, false, not, ◌&&◌, ◌||◌, List, [], ◌∷◌, Option, none, some,
  if◌then◌else◌,
}
use oxlens_sfu.Mesh.Wire.Cursor.{Bytes}
use oxlens_sfu.Mesh.KeyExpr.{same, concrete, intersects}
pub mod Latest

pub data Owner : Type 0 where
  local : ℕ → Owner
  sess : ℕ → Owner

unfoldable pub same_owner : Owner → Owner → Bool
same_owner (Owner.local a) (Owner.local b) = a == b
same_owner (Owner.sess a) (Owner.sess b) = a == b
same_owner _ _ = false

-- A subscription is named by its owner and its number.
abbrev pub Name : Type 0
Name = Owner × ℕ

unfoldable pub same_name : Name → Name → Bool
same_name (o, i) (p, j) = same_owner o p && i == j

pub record SubIndex : Type 0 where
  pub exprs : Name → Option Bytes
  pub exact : Bytes → Name → Bool
  pub wild : Name → Bool

unfoldable pub empty_index : SubIndex
empty_index = record { exprs = λ k. none; exact = λ e k. false; wild = λ k. false }

unfoldable pub remove_as : Option Bytes → Name → SubIndex → SubIndex
remove_as none k ix = ix
remove_as (some e) k ix = record {
  exprs = λ j. if same_name j k then none else ix.exprs j;
  exact = λ b j. if same b e && same_name j k then false else ix.exact b j;
  wild = λ j. if same_name j k then false else ix.wild j;
}

unfoldable pub remove : Name → SubIndex → SubIndex
remove k ix = remove_as (ix.exprs k) k ix

unfoldable pub insert_as : Bool → Name → Bytes → SubIndex → SubIndex
insert_as true k e ix = record {
  exprs = λ j. if same_name j k then some e else ix.exprs j;
  exact = λ b j. if same b e && same_name j k then true else ix.exact b j;
  wild = ix.wild;
}
insert_as false k e ix = record {
  exprs = λ j. if same_name j k then some e else ix.exprs j;
  exact = ix.exact;
  wild = λ j. if same_name j k then true else ix.wild j;
}

unfoldable pub add : Name → Bytes → SubIndex → SubIndex
add k e ix = insert_as (concrete e) k e (remove k ix)

unfoldable pub wild_match : Option Bytes → Bytes → Bool
wild_match none key = false
wild_match (some e) key = intersects e key

-- How often a subscription stands among those that match a key.
unfoldable pub matching : SubIndex → Bytes → Name → ℕ
matching ix key k =
    (if ix.exact key k then 1 else 0) + (if ix.wild k && wild_match (ix.exprs k) key then 1 else 0)
