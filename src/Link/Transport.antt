-- ===== src/Link/Transport.antt =====
-- crates/oxsfud/src/link/mod.rs: the part of a connection that the receiving thread uses. Whether a
-- TCP connection is open is given as a function of its number.
use oxlens_sfu.Base.{
  ℕ, ◌-◌, ◌==◌, Bool, true, false, List, [], ◌∷◌, Option, none, some, leb, if◌then◌else◌,
}
pub mod States
pub mod Liveness
use oxlens_sfu.Link.Paths.{PathKey, same_key}
use oxlens_sfu.Link.Creds.{Cred, Creds, use_ufrag}
use oxlens_sfu.Link.Tcp.{Bytes}

abbrev pub udp_pair_expire_ms : ℕ
udp_pair_expire_ms = 30000

pub data PeerState : Type 0 where
  alive : PeerState
  suspect : PeerState

pub record Pair : Type 0 where
  pub key : PathKey
  pub last_ms : ℕ

pub record Transport : Type 0 where
  pub creds : Creds
  pub path : Option PathKey
  pub pairs : List Pair
  pub state : PeerState
  pub suspect_since : ℕ
  pub state_since : ℕ

unfoldable pub new : Creds → ℕ → Transport
new c now = record {
  creds = c;
  path = none;
  pairs = [];
  state = PeerState.alive;
  suspect_since = 0;
  state_since = now;
}

-- What `set_state` does to a connection whose state is another one.
unfoldable pub enter_state : Transport → PeerState → ℕ → Transport
enter_state t PeerState.alive now = record t {
  state = PeerState.alive;
  state_since = now;
  suspect_since = 0;
}
enter_state t PeerState.suspect now = record t {
  state = PeerState.suspect;
  state_since = now;
  suspect_since = (if t.suspect_since == 0 then now else t.suspect_since);
}

unfoldable pub state_from : Transport → PeerState → PeerState → ℕ → Transport × Option PeerState
state_from t PeerState.alive PeerState.alive now = (t, none)
state_from t PeerState.suspect PeerState.suspect now = (t, none)
state_from t was s now = (enter_state t s now, some was)

-- The connection, and the state before, if it is another.
unfoldable pub set_state : Transport → PeerState → ℕ → Transport × Option PeerState
set_state t s now = state_from t t.state s now

unfoldable pub ufrag : Transport → Bytes
ufrag t = use_ufrag t.creds

unfoldable pub cred : Transport → Cred
cred t = t.creds.active

unfoldable pub touch : PathKey → ℕ → List Pair → List Pair
touch key now [] = record { key = key; last_ms = now } ∷ []
touch key now (p ∷ ps) =
    if same_key p.key key then record p { last_ms = now } ∷ ps else p ∷ touch key now ps

unfoldable pub touch_pair : Transport → PathKey → ℕ → Transport
touch_pair t key now = record t { pairs = touch key now t.pairs }

-- The time of the first pair with a key.
unfoldable pub find : PathKey → List Pair → Option ℕ
find key [] = none
find key (p ∷ ps) = if same_key p.key key then some p.last_ms else find key ps

unfoldable pub in_time : ℕ → Option ℕ → Bool
in_time now none = false
in_time now (some last) = leb (now - last) udp_pair_expire_ms

unfoldable pub last_pair : List Pair → Option Pair
last_pair [] = none
last_pair (p ∷ []) = some p
last_pair (p ∷ q ∷ ps) = last_pair (q ∷ ps)

module _ (tcp_open : ℕ → Bool) (now : ℕ) where
  unfoldable pub alive_on : List Pair → Option PathKey → Bool
  alive_on pairs none = true
  alive_on pairs (some (PathKey.tcp id)) = tcp_open id
  alive_on pairs (some (PathKey.udp a)) = in_time now (find (PathKey.udp a) pairs)

  unfoldable pub path_alive : Transport → Bool
  path_alive t = alive_on t.pairs t.path

  unfoldable pub send_ok : Transport → Option PathKey
  send_ok t = if path_alive t then t.path else none

  unfoldable pub pair_alive : Pair → Bool
  pair_alive p = elim p.key [
    | PathKey.udp _ ↦ leb (now - p.last_ms) udp_pair_expire_ms
    | PathKey.tcp id ↦ tcp_open id
  ]

  unfoldable pub key_alive : Option Pair → Option PathKey
  key_alive none = none
  key_alive (some p) = if pair_alive p then some p.key else none

  unfoldable pub control_on : Transport → Option PathKey → Option PathKey
  control_on t (some p) = send_ok t
  control_on t none = key_alive (last_pair t.pairs)

  unfoldable pub control_path : Transport → Option PathKey
  control_path t = control_on t t.path
