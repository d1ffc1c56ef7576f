-- ===== src/Floor/Delivery.antt =====
-- crates/oxsfud/src/ops/floor.rs: between the messages of the floor and those of the wire. The
-- bytes of a user's name are a parameter.
use Prim.Native.Nat.{min}
use oxlens_sfu.Base.{
  ℕ, ◌%◌, ◌≤◌, ◌==◌, ◌&&◌, not, ◌≡◌, refl, ap, Bool, true, false, List, Option, none, some, arith,
  length, from_be16, ◌/◌, if◌then◌else◌,
}
use oxlens_sfu.Floor.Types.{UserId, Mt, Msg, msg, or_no_user}
use oxlens_sfu.Floor.Participant.{is_numbered}
use oxlens_sfu.Wire.Mbcp.Message
use oxlens_sfu.Wire.Mbcp.Build
use oxlens_sfu.Wire.Mbcp.Kinds
use oxlens_sfu.Wire.Mbcp.Fields
use oxlens_sfu.Wire.Mbcp.RoundTrip.{encode-delivers}
use mathlib.Core.Path.{subst}

abbrev pub or_0 : Option ℕ → ℕ
or_0 none = 0
or_0 (some n) = n

unfoldable pub from_mbcp : Message.Msg → Option Msg
from_mbcp m =
    if m.msg_type == Kinds.request
    then some (msg Mt.request none (or_0 (Build.priority m)) 0)
    else if m.msg_type == Kinds.release
    then some (msg Mt.release none 0 0)
    else if m.msg_type == Kinds.qpos_req
    then some (msg Mt.qpos_req none 0 0)
    else if m.msg_type == Kinds.ack
    then some (msg Mt.ack none (or_0 (Build.ack_of m)) 0)
    else none

module _ (name : UserId → List ℕ) where
  abbrev map_name : Option UserId → Option (List ℕ)
  map_name none = none
  map_name (some u) = some (name u)

  unfoldable pub to_kind : Mt → Msg → List ℕ → Option (List ℕ) → Option Message.Msg
  to_kind Mt.granted m room reason = some (Build.granted (m.n % 256) (m.d % 65536) room)
  to_kind Mt.taken m room reason = some (Build.taken (name (or_no_user m.a)) (m.q % 65536) room)
  to_kind Mt.idle m room reason = some (Build.idle (m.q % 65536) room (map_name m.a))
  to_kind Mt.deny m room reason = some (Build.deny_msg (m.n % 256) room reason)
  to_kind Mt.revoke m room reason = some (Build.revoke_msg (m.n % 256) room none)
  to_kind Mt.qinfo m room reason = some (Build.queue_info (min m.n 255) (m.d % 256) room)
  to_kind Mt.ack m room reason = some (Build.ack (m.n % 256) room)
  to_kind _ m room reason = none

  unfoldable pub to_mbcp : Msg → List ℕ → Option (List ℕ) → Option Message.Msg
  unfolding to_kind
  to_mbcp m room reason = to_kind m.t m room reason

  -- Names of at most 255 bytes, as those of rooms and reasons.
  abbrev pub Short : List ℕ → Type 0
  Short v = length v ≤ 255

  abbrev pub ShortReason : Option (List ℕ) → Type 0
  ShortReason none = Unit {0}
  ShortReason (some v) = Short v

  -- What a message of the floor says on the wire: it can be sent, it names the room, and its
  -- sequence number is the floor's.
  Says : Bool → ℕ → List ℕ → Message.Msg → Type 0
  Says numbered q room w =
      (Message.adopted w.msg_type ≡ true)
      × (w.ack && not (Message.ack_allowed w.msg_type) ≡ false)
      × (length w.tlvs ≤ 255)
      × (Message.any_long w.tlvs ≡ false)
      × (Build.get w Fields.room ≡ some room)
      × (Build.seq w ≡ (if numbered then some (q % 65536) else none))

  AllSay : Bool → ℕ → List ℕ → Option Message.Msg → Type 0
  AllSay numbered q room none = Unit {0}
  AllSay numbered q room (some w) = Says numbered q room w

  word : (n : ℕ) → from_be16 (n % 65536 / 256 % 256) (n % 65536 % 256) ≡ n % 65536
  word n = omega arith

  idle-Says :
      (q : ℕ) (room : List ℕ) (prev : Option (List ℕ))
      → Short room
      → ShortReason prev
      → Says true q room (Build.idle (q % 65536) room prev)
  unfolding Says Build.push Build.idle Build.get Build.find_field Build.seq Message.any_long
      Message.adopted Message.ack_allowed
  idle-Says q room none hr hs =
      (refl, refl, omega arith, ground arith, refl, ap (λ n. some n) (word q))
  idle-Says q room (some v) hr hs =
      (refl, refl, omega arith, ground arith, refl, ap (λ n. some n) (word q))

  deny-Says :
      (q c : ℕ) (room : List ℕ) (reason : Option (List ℕ))
      → Short room
      → ShortReason reason
      → Says false q room (Build.deny_msg c room reason)
  unfolding Says Build.push Build.deny_msg Build.get Build.find_field Build.seq Message.any_long
      Message.adopted Message.ack_allowed
  deny-Says q c room none hr hs = (refl, refl, omega arith, ground arith, refl, refl)
  deny-Says q c room (some v) hr hs = (refl, refl, omega arith, ground arith, refl, refl)

  named : (o : Option UserId) → Short (name (or_no_user o)) → ShortReason (map_name o)
  named none h = _
  named (some u) h = h

  to_kind-Says :
      (t : Mt) (m : Msg) (room : List ℕ) (reason : Option (List ℕ))
      → Short (name (or_no_user m.a))
      → Short room
      → ShortReason reason
      → AllSay (is_numbered t) m.q room (to_kind t m room reason)
  unfolding to_kind Says AllSay Build.granted Build.push Build.taken Build.revoke_msg
      Build.queue_info Build.ack Build.get Build.find_field Build.seq Message.any_long
      Message.adopted Message.ack_allowed
  to_kind-Says Mt.granted m room reason hn hr hs =
      (refl, refl, omega arith, ground arith, refl, refl)
  to_kind-Says Mt.taken m room reason hn hr hs =
      (refl, refl, omega arith, ground (arith, hn), refl, ap (λ n. some n) (word m.q))
  to_kind-Says Mt.idle m room reason hn hr hs = idle-Says m.q room (map_name m.a) hr (named m.a hn)
  to_kind-Says Mt.deny m room reason hn hr hs = deny-Says m.q (m.n % 256) room reason hr hs
  to_kind-Says Mt.revoke m room reason hn hr hs =
      (refl, refl, omega arith, ground arith, refl, refl)
  to_kind-Says Mt.qinfo m room reason hn hr hs = (refl, refl, omega arith, ground arith, refl, refl)
  to_kind-Says Mt.ack m room reason hn hr hs = (refl, refl, omega arith, ground arith, refl, refl)
  to_kind-Says Mt.request m room reason hn hr hs = _
  to_kind-Says Mt.release m room reason hn hr hs = _
  to_kind-Says Mt.qpos_req m room reason hn hr hs = _
  to_kind-Says Mt.rtp m room reason hn hr hs = _

  -- A message of the floor that has a form on the wire is encoded and decoded to that form, with
  -- the name of the room, and with the floor's sequence number if it is a numbered one, as long
  -- as the name of the message's user, the room and the reason are of at most 255 bytes each.
  pub to_mbcp-delivered :
      (m : Msg) (room : List ℕ) (reason : Option (List ℕ)) (w : Message.Msg)
      → Short (name (or_no_user m.a))
      → Short room
      → ShortReason reason
      → to_mbcp m room reason ≡ some w
      → (b : List ℕ) × (Message.encode w ≡ some b)
        × (Message.decode b ≡ some w)
        × (Build.get w Fields.room ≡ some room)
        × (Build.seq w ≡ (if is_numbered m.t then some (m.q % 65536) else none))
  unfolding to_mbcp Says AllSay
  to_mbcp-delivered m room reason w hn hr hs e =
      let (a, b, c, d, x, y) : Says (is_numbered m.t) m.q room w =
        subst (AllSay (is_numbered m.t) m.q room) e (to_kind-Says m.t m room reason hn hr hs) in
      let (bytes, p, q) = encode-delivers w a b c d in (bytes, p, q, x, y)

-- A message is encoded to bytes that are decoded to it, and the floor hears `heard`.
abbrev pub Arrives : Message.Msg → Msg → Type 0
Arrives m heard =
    (b : List ℕ) × (Message.encode m ≡ some b)
    × (w : Message.Msg) × (Message.decode b ≡ some w)
    × (from_mbcp w ≡ some heard)

arrives :
    (m : Message.Msg) (heard : Msg)
    → Message.adopted m.msg_type ≡ true
    → m.ack ≡ false
    → length m.tlvs ≤ 255
    → Message.any_long m.tlvs ≡ false
    → from_mbcp m ≡ some heard
    → Arrives m heard
arrives m heard t k n l h = let (b, p, q) = encode-delivers m t (rw k refl) n l in (b, p, m, q, h)

-- The four messages that the floor takes from a client, for a room whose name has at most 255
-- bytes, and what it takes from them once they have been encoded and decoded: a request's
-- priority, 0 where there is none, and which message an acknowledgement is of.
pub from_mbcp-delivered :
    (room : List ℕ) (p : Option ℕ) (of : ℕ)
    → length room ≤ 255
    → Arrives (Build.request room p) (msg Mt.request none (or_0 p) 0)
      × Arrives (Build.release room) (msg Mt.release none 0 0)
      × Arrives (Build.queue_pos_request room) (msg Mt.qpos_req none 0 0)
      × Arrives (Build.ack of room) (msg Mt.ack none of 0)
unfolding from_mbcp Build.push Build.request Build.release Build.queue_pos_request Build.ack
    Build.priority Build.ack_of Build.get Build.find_field Message.any_long Message.adopted
from_mbcp-delivered room p of h = (
  asks p,
  arrives _ _ refl refl (omega arith) (ground arith) refl,
  arrives _ _ refl refl (omega arith) (ground arith) refl,
  arrives _ _ refl refl (omega arith) (ground arith) refl,
)
  where
    asks : (p : Option ℕ) → Arrives (Build.request room p) (msg Mt.request none (or_0 p) 0)
    asks none = arrives _ _ refl refl (omega arith) (ground arith) refl
    asks (some n) = arrives _ _ refl refl (omega arith) (ground arith) refl
