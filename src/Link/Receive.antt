-- ===== src/Link/Receive.antt =====
-- crates/oxsfud/src/fwd/rt.rs: the tables of the receiving thread, and what it does with a datagram
-- or with a frame that came over TCP. The connections are numbered. The locks are never poisoned;
-- a worker's queue takes what is delivered.
pub mod Gate
pub mod Media
pub mod Retired
use oxlens_sfu.Base.{
  ℕ, ◌==◌, Bool, true, false, not, ◌||◌, ◌&&◌, List, [], ◌∷◌, ◌++◌, Option, none, some, ltb, leb,
  length, if◌then◌else◌,
}
use oxlens_sfu.Link.Tcp.{Bytes}
use oxlens_sfu.Link.Stun.{Binding, Result, parse, verify}
use oxlens_sfu.Link.Stun.Build.{SocketAddr, success}
use oxlens_sfu.Link.Paths.{PathKey, same_key, same_bytes}
use oxlens_sfu.Link.Creds.{Cred, Checked, pwd, checked, restart}
use oxlens_sfu.Link.Transport.{PeerState, Transport, touch_pair, set_state}

abbrev pub max_datagram : ℕ
max_datagram = 2048

pub record RecvState : Type 0 where
  pub transports : ℕ → Transport
  pub by_ufrag : Bytes → Option ℕ
  pub by_addr : PathKey → Option ℕ

pub data Reason : Type 0 where
  stun_unverified : Reason
  rtp_unknown_path : Reason
  oversize : Reason
  demux_unknown : Reason

pub data Act : Type 0 where
  drop_count : Reason → Act
  ufrag_promoted : ℕ → Bytes → Act
  peer_alive : ℕ → Bool → Act
  reply : PathKey → Bytes → Act
  dtls_in : ℕ → Bytes → Act
  deliver : ℕ → Bytes → ℕ → Act

-- The tables, what is done, and the connection that the datagram belongs to.
abbrev pub Done : Type 0
Done = RecvState × List Act × Option ℕ

abbrev pub set_transport : ℕ → Transport → RecvState → RecvState
set_transport id t s = record s { transports = λ i. if i == id then t else s.transports i }

abbrev pub bind_ufrag : Bytes → Option ℕ → RecvState → RecvState
bind_ufrag u id s = record s { by_ufrag = λ v. if same_bytes u v then id else s.by_ufrag v }

abbrev pub bind_addr : PathKey → Option ℕ → RecvState → RecvState
bind_addr key id s = record s { by_addr = λ k. if same_key key k then id else s.by_addr k }

unfoldable pub refuse : RecvState → Reason → Done
refuse s r = (s, Act.drop_count r ∷ [], none)

-- The old user name of a connection is taken off the table when the new one is first used.
unfoldable pub retire : ℕ → Bytes → Checked → RecvState → RecvState × List Act
retire id u Checked.current s = (s, [])
retire id u (Checked.promoted old) s = (bind_ufrag old none s, Act.ufrag_promoted id u ∷ [])

unfoldable pub other_path : Option PathKey → PathKey → Bool
other_path none key = true
other_path (some p) key = not (same_key p key)

unfoldable pub was_suspect : Option PeerState → Bool
was_suspect (some PeerState.suspect) = true
was_suspect _ = false

-- The path is chosen by a message that asks for it.
unfoldable pub nominate : Bool → ℕ → PathKey → ℕ → Transport → Transport × List Act
nominate false id key now t = (t, [])
nominate true id key now t =
    let changed = other_path t.path key in
    let (t', was) = set_state (record t { path = some key }) PeerState.alive now in
    (t', if was_suspect was || changed then Act.peer_alive id changed ∷ [] else [])

unfoldable pub sender : SocketAddr → PathKey → SocketAddr
sender local (PathKey.udp a) = a
sender local (PathKey.tcp id) = local

-- DTLS goes to the connection of the address, or to that of the TCP connection it came over.
unfoldable pub dtls_to : RecvState → Bytes → Option ℕ → Option ℕ → Done
dtls_to s data_in (some t) known = (s, Act.dtls_in t data_in ∷ [], some t)
dtls_to s data_in none (some t) = (s, Act.dtls_in t data_in ∷ [], some t)
dtls_to s data_in none none = refuse s Reason.rtp_unknown_path

unfoldable pub media_to : RecvState → Bytes → ℕ → Option ℕ → Done
media_to s data_in at none = refuse s Reason.rtp_unknown_path
media_to s data_in at (some t) =
    if ltb max_datagram (length data_in)
    then (s, Act.drop_count Reason.oversize ∷ [], some t)
    else (s, Act.deliver t data_in at ∷ [], some t)

-- What happens to the tables: a datagram, the commands of the other threads, the end of a TCP
-- connection, a restart, and a state that a timer sets.
pub data Event : Type 0 where
  heard : Bytes → PathKey → ℕ → ℕ → Option ℕ → Event
  register : Bytes → ℕ → Event
  drop_ufrag : Bytes → Event
  unregister : ℕ → Event
  tcp_closed : ℕ → Event
  restarted : ℕ → Cred → Event
  state_set : ℕ → PeerState → ℕ → Event

abbrev pub unless : ℕ → Option ℕ → Option ℕ
unless id none = none
unless id (some t) = if t == id then none else some t

module _ (hmac : Bytes → Bytes → Bytes) (lossy : Bytes → Bytes) (crc : Bytes → ℕ)
    (local : SocketAddr) where
  -- A message that was verified, for the connection that its user names.
  unfoldable pub accept : RecvState → ℕ → Binding → Bytes → PathKey → ℕ → Done
  accept s id b key_pwd key now =
      let t1 = touch_pair (s.transports id) key now in
      let (c, chk) = checked t1.creds b.local_ufrag in
      let (s1, promoted) = retire id b.local_ufrag chk (bind_addr key (some id) s) in
      let (t2, told) = nominate b.use_candidate id key now (record t1 { creds = c }) in
      (
        set_transport id t2 s1,
        promoted
            ++ (told ++ Act.reply key (success hmac crc b.txid (sender local key) key_pwd) ∷ []),
        some id,
      )

  unfoldable pub with_pwd : RecvState → Bytes → PathKey → ℕ → Binding → ℕ → Option Bytes → Done
  with_pwd s raw key now b id none = refuse s Reason.stun_unverified
  with_pwd s raw key now b id (some p) =
      if verify hmac raw b p then accept s id b p key now else refuse s Reason.stun_unverified

  unfoldable pub with_transport : RecvState → Bytes → PathKey → ℕ → Binding → Option ℕ → Done
  with_transport s raw key now b none = refuse s Reason.stun_unverified
  with_transport s raw key now b (some id) =
      with_pwd s raw key now b id (pwd (s.transports id).creds b.local_ufrag)

  unfoldable pub with_binding : RecvState → Bytes → PathKey → ℕ → Result Binding → Done
  with_binding s raw key now (Result.err e) = refuse s Reason.stun_unverified
  with_binding s raw key now (Result.ok b) =
      with_transport s raw key now b (s.by_ufrag b.local_ufrag)

  unfoldable pub stun_in : RecvState → Bytes → PathKey → ℕ → Done
  stun_in s raw key now = with_binding s raw key now (parse lossy raw)

  -- `datagram`, by the first byte. `now` is the time in milliseconds.
  unfoldable pub datagram : RecvState → Bytes → PathKey → ℕ → ℕ → Option ℕ → Done
  datagram s [] key at now known = (s, [], none)
  datagram s (b0 ∷ rest) key at now known =
      let raw = b0 ∷ rest in
      if leb b0 3
      then stun_in s raw key now
      else if leb 20 b0 && leb b0 63
      then dtls_to s raw (s.by_addr key) known
      else if leb 128 b0 && leb b0 191
      then media_to s raw at (s.by_addr key)
      else refuse s Reason.demux_unknown

  unfoldable pub step : RecvState → Event → RecvState
  step s (Event.heard raw key at now known) = (datagram s raw key at now known).0
  step s (Event.register u id) = bind_ufrag u (some id) s
  step s (Event.drop_ufrag u) = bind_ufrag u none s
  step s (Event.unregister id) = record s {
    by_ufrag = λ u. unless id (s.by_ufrag u);
    by_addr = λ k. unless id (s.by_addr k);
  }
  step s (Event.tcp_closed id) = bind_addr (PathKey.tcp id) none s
  step s (Event.restarted id next) =
      let t = s.transports id in set_transport id (record t { creds = (restart t.creds next).0 }) s
  step s (Event.state_set id state now) =
      set_transport id (set_state (s.transports id) state now).0 s

  unfoldable pub run : RecvState → List Event → RecvState
  run s [] = s
  run s (e ∷ es) = run (step s e) es
