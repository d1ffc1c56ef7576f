-- ===== src/Mesh/Tokens.antt =====
-- crates/oxmesh/src/core.rs: the tokens that a router knows, with how many declarations each has.
-- A token that is not in the map has none. The declarations of all sessions, and those of the
-- node itself, are one list here; the events are those of a subscription to all tokens, the last
-- one first.
-- Left out are declarations of other kinds, and what the router announces to the others.
use oxlens_sfu.Base.{
  ℕ, zero, suc, ◌+◌, ◌==◌, Bool, true, false, List, [], ◌∷◌, Option, none, some, if◌then◌else◌,
}
use oxlens_sfu.Mesh.Wire.Cursor.{Bytes}
use oxlens_sfu.Mesh.KeyExpr.{same}
use oxlens_sfu.Mesh.SubIndex.{Owner, Name, same_name, same_owner}
pub mod Counted
pub mod Histories
pub mod Redeclared

pub data Event : Type 0 where
  put_token : Bytes → Event
  delete_token : Bytes → Event

pub record Tokens : Type 0 where
  pub tok : Bytes → ℕ
  pub decls : List (Name × Bytes)
  pub events : List Event

unfoldable pub no_tokens : Tokens
no_tokens = record { tok = λ k. 0; decls = []; events = [] }

unfoldable pub set_count : Bytes → ℕ → List Event → Tokens → Tokens
set_count e n ev t = record {
  tok = λ k. if same k e then n else t.tok k;
  decls = t.decls;
  events = ev;
}

unfoldable pub tok_add_on : ℕ → Bytes → Tokens → Tokens
tok_add_on zero e t = set_count e 1 (Event.put_token e ∷ t.events) t
tok_add_on (suc n) e t = set_count e (suc (suc n)) t.events t

unfoldable pub tok_add : Bytes → Tokens → Tokens
tok_add e t = tok_add_on (t.tok e) e t

unfoldable pub tok_del_on : ℕ → Bytes → Tokens → Tokens
tok_del_on zero e t = t
tok_del_on (suc zero) e t = set_count e 0 (Event.delete_token e ∷ t.events) t
tok_del_on (suc (suc n)) e t = set_count e (suc n) t.events t

unfoldable pub tok_del : Bytes → Tokens → Tokens
tok_del e t = tok_del_on (t.tok e) e t

unfoldable pub find_decl : Name → List (Name × Bytes) → Option Bytes
find_decl n [] = none
find_decl n ((k, e) ∷ ds) = let rest = find_decl n ds in if same_name n k then some e else rest

unfoldable pub remove_decl : Name → List (Name × Bytes) → List (Name × Bytes)
remove_decl n [] = []
remove_decl n ((k, e) ∷ ds) =
    let rest = remove_decl n ds in if same_name n k then ds else (k, e) ∷ rest

unfoldable pub replace_decl : Name → Bytes → List (Name × Bytes) → List (Name × Bytes)
replace_decl n x [] = []
replace_decl n x ((k, e) ∷ ds) =
    let rest = replace_decl n x ds in if same_name n k then (k, x) ∷ ds else (k, e) ∷ rest

unfoldable pub set_decls : List (Name × Bytes) → Tokens → Tokens
set_decls ds t = record { tok = t.tok; decls = ds; events = t.events }

-- A declaration under a name that is there takes its place, and is not counted.
unfoldable pub declare_on : Option Bytes → Name → Bytes → Tokens → Tokens
declare_on (some old) n e t = set_decls (replace_decl n e t.decls) t
declare_on none n e t = tok_add e (set_decls ((n, e) ∷ t.decls) t)

unfoldable pub declare : Name → Bytes → Tokens → Tokens
declare n e t = declare_on (find_decl n t.decls) n e t

unfoldable pub undeclare_on : Option Bytes → Name → Tokens → Tokens
undeclare_on none n t = t
undeclare_on (some e) n t = tok_del e (set_decls (remove_decl n t.decls) t)

unfoldable pub undeclare : Name → Tokens → Tokens
undeclare n t = undeclare_on (find_decl n t.decls) n t

-- The declarations of a session that is closed, one after the other.
unfoldable pub drop_decls : Owner → List (Name × Bytes) → Tokens → Tokens
drop_decls o [] t = t
drop_decls o ((k, e) ∷ ds) t =
    let skip = drop_decls o ds t in
    let rest = drop_decls o ds (tok_del e t) in if same_owner o k.0 then rest else skip

unfoldable pub others : Owner → List (Name × Bytes) → List (Name × Bytes)
others o [] = []
others o ((k, e) ∷ ds) = let rest = others o ds in if same_owner o k.0 then rest else (k, e) ∷ rest

unfoldable pub close : ℕ → Tokens → Tokens
close uid t = drop_decls (Owner.sess uid) t.decls (set_decls (others (Owner.sess uid) t.decls) t)
