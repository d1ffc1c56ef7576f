-- ===== src/Mesh/Peering.antt =====
-- crates/oxmesh/src/core.rs: which of two connections to the same node is kept. The two maps from a
-- node to the number of its session and from that to the session are one map here. Names of nodes
-- are bytes, in the order of strings.
-- Left out are the table of dials, and what else `install` and `close` do with a session.
use oxlens_sfu.Base.{
  ℕ, ◌==◌, ◌%◌, Bool, true, false, not, ◌&&◌, ◌||◌, List, [], ◌∷◌, Option, none, some, ltb,
  if◌then◌else◌,
}
use oxlens_sfu.Mesh.Wire.Cursor.{Bytes}
use oxlens_sfu.Mesh.Wire.Message.{Role, CloseReason, Hello}
use oxlens_sfu.Mesh.KeyExpr.{same}
pub mod Crossing

-- `<` on strings.
unfoldable pub less : Bytes → Bytes → Bool
less [] [] = false
less [] (y ∷ b) = true
less (x ∷ a) [] = false
less (x ∷ a) (y ∷ b) =
    let rest = less a b in if ltb x y then true else if x == y then rest else false

-- Who dialed a session, in which run of that node, and the number of the dial.
pub record Link : Type 0 where
  pub dialer : Bytes
  pub boot : ℕ
  pub sno : ℕ

pub record Node : Type 0 where
  pub node : Bytes
  pub router : Bool
  pub boot : ℕ
  pub links : Bytes → Option Link

-- `(h.boot, h.sno) > (s.boot, s.sno)`.
unfoldable pub newer : Hello → Link → Bool
newer h s = ltb s.boot h.boot || (h.boot == s.boot && ltb s.sno h.sno)

unfoldable pub verdict_on : Option Link → Node → Hello → Option CloseReason
verdict_on none me h = none
verdict_on (some s) me h =
    if same s.dialer h.node
    then (if newer h s then none else some CloseReason.refused)
    else if less h.node me.node
    then none
    else some CloseReason.duplicate

unfoldable pub accept_verdict : Node → Hello → Option CloseReason
accept_verdict me h =
    if not (h.proto == 1) || same h.node me.node || not me.router
    then some CloseReason.protocol
    else verdict_on (me.links h.node) me h

unfoldable pub set_link : Bytes → Link → Node → Node
set_link n l me = record {
  node = me.node;
  router = me.router;
  boot = me.boot;
  links = λ k. if same k n then some l else me.links k;
}

unfoldable pub accepted_as : Option CloseReason → Hello → Node → Node
accepted_as none h me = set_link h.node (record { dialer = h.node; boot = h.boot; sno = h.sno }) me
accepted_as (some r) h me = me

-- A node that dialed this one, whose answer could be sent or not.
unfoldable pub on_accepted : Bool → Hello → Node → Node
on_accepted sent h me = if sent then accepted_as (accept_verdict me h) h me else me

unfoldable pub keep_old : Option Link → Node → Hello → ℕ → Bool
keep_old none me h sno = false
keep_old (some s) me h sno = if same s.dialer me.node then ltb sno s.sno else less h.node me.node

unfoldable pub is_router : Role → Bool
is_router Role.router = true
is_router Role.client = false

-- A dial that came through, with the answer of the other node.
unfoldable pub on_dialed : Hello → ℕ → Node → Node
on_dialed h sno me =
    if not (h.proto == 1) || same h.node me.node || (not me.router && not (is_router h.role))
    then me
    else if keep_old (me.links h.node) me h sno
    then me
    else set_link h.node (record { dialer = me.node; boot = me.boot; sno = sno }) me

-- `my_hello`, where the rest of the node is given.
unfoldable pub my_hello : Node → ℕ → ℕ → List Bytes → List (Bytes × Bytes) → Hello
my_hello me sno lease_ms listen peers = record {
  proto = 1;
  role = if me.router then Role.router else Role.client;
  node = me.node;
  boot = me.boot;
  sno = sno;
  lease_ms = lease_ms % 4294967296;
  listen = listen;
  peers = peers;
}
