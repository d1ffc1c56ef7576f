-- ===== src/Floor/Types.antt =====
-- crates/oxsfud/src/flr/core.rs: the types of the floor machine.
-- A user id is a name of which the code uses equality, the order of its maps and the empty
-- default; it is a number here, 0 standing for the empty name. A `BTreeSet` of users is an
-- ascending list, and a `BTreeMap` keyed by users is a function.
use Prim.Native.String.{String}
use oxlens_sfu.Base.{
  ℕ, ◌==◌, Bool, true, false, List, [], ◌∷◌, ◌++◌, Option, none, some, if◌then◌else◌,
}

abbrev pub UserId : Type 0
UserId = ℕ

-- `String::default()`.
abbrev pub no_user : UserId
no_user = 0

abbrev pub seq_wrap : ℕ
seq_wrap = 65536

pub data G : Type 0 where
  idle taken prevoke : G

pub data P : Type 0 where
  np_idle np_taken permitted prevoke np_sends releasing : P

pub data Mt : Type 0 where
  request granted taken deny release idle revoke qpos_req qinfo ack rtp : Mt

pub record Msg : Type 0 where
  pub t : Mt
  pub a : Option UserId
  pub n : ℕ
  pub d : ℕ
  pub q : ℕ

-- `Msg::new`.
abbrev pub msg : Mt → Option UserId → ℕ → ℕ → Msg
msg t a n d = record { t = t; a = a; n = n; d = d; q = 0 }

pub record Out : Type 0 where
  pub to : UserId
  pub m : Msg

pub data Fx : Type 0 where
  bind : UserId → Fx
  release : Option UserId → Fx

pub record Waiter : Type 0 where
  pub u : UserId
  pub p : ℕ
  pub pre : Bool

pub record Part : Type 0 where
  pub part : Option P
  pub pub_room : Bool
  pub perm : Bool
  pub retry : Bool
  pub released : Bool
  pub g_taken : Bool
  pub c8 : ℕ
  pub c21 : ℕ
  pub rcause : ℕ

-- `Part::default()`.
abbrev pub no_part : Part
no_part = record {
  part = none;
  pub_room = false;
  perm = false;
  retry = false;
  released = false;
  g_taken = false;
  c8 = 0;
  c21 = 0;
  rcause = 0;
}

pub record Floor : Type 0 where
  pub g : G
  pub speaker : Option UserId
  pub sprio : ℕ
  pub revoking : Option UserId
  pub rprio : ℕ
  pub rcause_g : ℕ
  pub queue : List Waiter
  pub succ : Bool
  pub rtp_seen : Bool
  pub first_rtp : Bool
  pub c20 : ℕ
  pub c7 : ℕ
  pub idle_bcast : Bool
  pub prev : Option UserId
  pub members : List UserId
  pub parts : UserId → Option Part
  pub seq : ℕ
  pub qmax : ℕ
  pub t2_secs : ℕ

-- A floor in the middle of an operation, with the `Step` that the operation has built so far.
pub record Run : Type 0 where
  pub floor : Floor
  pub out : List Out
  pub labels : List String
  pub fx : List Fx

-- `Step::default()`.
abbrev pub start : Floor → Run
start f = record { floor = f; out = []; labels = []; fx = [] }

-- `r.labels.push(l)`.
abbrev pub mark : String → Run → Run
mark l r = record r { labels = r.labels ++ (l ∷ []) }

-- `r.fx.push(x)`.
abbrev pub push_fx : Fx → Run → Run
push_fx x r = record r { fx = r.fx ++ (x ∷ []) }

unfoldable pub new : ℕ → ℕ → Floor
new qmax t2_secs = record {
  g = G.idle;
  speaker = none;
  sprio = 0;
  revoking = none;
  rprio = 0;
  rcause_g = 0;
  queue = [];
  succ = false;
  rtp_seen = false;
  first_rtp = false;
  c20 = 0;
  c7 = 0;
  idle_bcast = false;
  prev = none;
  members = [];
  parts = λ u. none;
  seq = 0;
  qmax = qmax;
  t2_secs = t2_secs;
}

-- The timers, which the code names by strings.
pub data TimerName : Type 0 where
  t1 t2 t3 t7 t8 t9 t20 t21 : TimerName

-- `o.as_deref() == Some(u)`.
abbrev pub is_user : Option UserId → UserId → Bool
is_user none u = false
is_user (some v) u = v == u

-- `o.unwrap_or_default()`.
abbrev pub or_no_user : Option UserId → UserId
or_no_user none = no_user
or_no_user (some u) = u

abbrev pub is_idle : G → Bool
is_idle G.idle = true
is_idle _ = false

abbrev pub is_taken : G → Bool
is_taken G.taken = true
is_taken _ = false

abbrev pub is_prevoke : G → Bool
is_prevoke G.prevoke = true
is_prevoke _ = false

abbrev pub or_no_part : Option Part → Part
or_no_part none = no_part
or_no_part (some p) = p

-- The record of `u`, or the default that `unwrap_or_default` and `entry().or_default()` give.
abbrev pub get_part : Floor → UserId → Part
get_part f u = or_no_part (f.parts u)

unfoldable pub part_of : Floor → UserId → Option P
part_of f u = (get_part f u).part

holder_at : G → Option UserId → Option UserId → Option UserId
holder_at G.taken speaker revoking = speaker
holder_at G.prevoke speaker revoking = revoking
holder_at G.idle speaker revoking = none

unfoldable pub holder : Floor → Option UserId
unfolding holder_at
holder f = holder_at f.g f.speaker f.revoking

unfoldable pub holder_prio : Floor → ℕ
holder_prio f = if is_taken f.g then f.sprio else f.rprio
