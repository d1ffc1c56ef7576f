-- ===== src/Wire/Op.antt =====
-- crates/oxsig/src/op.rs: the messages of the signalling channel, their numbers, directions and
-- lanes.
use oxlens_sfu.Base.{
  ℕ, ◌==◌, ◌≡◌, Bool, true, false, List, [], ◌∷◌, Option, none, some, arith, if◌then◌else◌, sym, ap,
  ◌∙◌, ◌⊎◌, ◌↔◌,
}

pub data Lane : Type 0 where
  recovery session data_lane diagnostic : Lane

pub data Dir : Type 0 where
  c2s s2c both : Dir

pub data Op : Type 0 where
  bind resume heartbeat leave room_join room_leave publish_tracks ready subscribe_layer track_set
        ice_restart affiliation message task participant_event track_event track_state room_event
        participant_state link_event mline_event :
      Op

abbrev pub all_ops : List Op
all_ops =
    Op.bind ∷ Op.resume ∷ Op.heartbeat ∷ Op.leave ∷ Op.room_join ∷ Op.room_leave ∷ Op.publish_tracks
    ∷ Op.ready ∷ Op.subscribe_layer ∷ Op.track_set ∷ Op.ice_restart ∷ Op.affiliation ∷ Op.message
    ∷ Op.task ∷ Op.participant_event ∷ Op.track_event ∷ Op.track_state ∷ Op.room_event
    ∷ Op.participant_state ∷ Op.link_event ∷ Op.mline_event ∷ []

unfoldable pub as_u16 : Op → ℕ
as_u16 Op.bind = 257
as_u16 Op.resume = 258
as_u16 Op.heartbeat = 259
as_u16 Op.leave = 260
as_u16 Op.room_join = 513
as_u16 Op.room_leave = 514
as_u16 Op.publish_tracks = 769
as_u16 Op.ready = 770
as_u16 Op.subscribe_layer = 771
as_u16 Op.track_set = 772
as_u16 Op.ice_restart = 773
as_u16 Op.affiliation = 1025
as_u16 Op.message = 1281
as_u16 Op.task = 1537
as_u16 Op.participant_event = 1793
as_u16 Op.track_event = 1794
as_u16 Op.track_state = 1795
as_u16 Op.room_event = 1796
as_u16 Op.participant_state = 1797
as_u16 Op.link_event = 1798
as_u16 Op.mline_event = 1799

unfoldable find_op : List Op → ℕ → Option Op
unfolding as_u16
find_op [] v = none
find_op (o ∷ os) v = let rest = find_op os v in if as_u16 o == v then some o else rest

unfoldable pub from_u16 : ℕ → Option Op
unfolding find_op
from_u16 v = find_op all_ops v

unfoldable pub dir : Op → Dir
dir Op.heartbeat = Dir.both
dir Op.leave = Dir.both
dir Op.message = Dir.both
dir Op.task = Dir.both
dir Op.participant_event = Dir.s2c
dir Op.track_event = Dir.s2c
dir Op.track_state = Dir.s2c
dir Op.room_event = Dir.s2c
dir Op.participant_state = Dir.s2c
dir Op.link_event = Dir.s2c
dir Op.mline_event = Dir.s2c
dir _ = Dir.c2s

unfoldable pub lane : Op → Lane
lane Op.message = Lane.data_lane
lane Op.task = Lane.diagnostic
lane _ = Lane.session

unfoldable pub outside_window : Op → Bool
outside_window Op.heartbeat = true
outside_window _ = false

unfoldable pub carries_room_state : Op → Bool
carries_room_state Op.room_event = true
carries_room_state Op.participant_event = true
carries_room_state Op.track_event = true
carries_room_state Op.track_state = true
carries_room_state Op.participant_state = true
carries_room_state Op.affiliation = true
carries_room_state _ = false

-- An operation is found under its own number.
pub from_u16-as_u16 : (o : Op) → from_u16 (as_u16 o) ≡ some o
unfolding from_u16 as_u16 find_op
from_u16-as_u16 o = ground arith

-- A number under which an operation is found is the operation's.
find_op_sound : (os : List Op) (v : ℕ) (o : Op) → find_op os v ≡ some o → as_u16 o ≡ v
unfolding find_op
find_op_sound [] v o e = absurd (ground arith)
find_op_sound (x ∷ os) v o e = grind (arith, find_op_sound os v o)

-- A number names an operation exactly when it is the operation's own: numbers and operations
-- determine each other.
pub from_u16_iff : (v : ℕ) (o : Op) → (from_u16 v ≡ some o) ↔ (as_u16 o ≡ v)
unfolding from_u16
from_u16_iff v o = (find_op_sound all_ops v o, λ e. ap from_u16 (sym e) ∙ from_u16-as_u16 o)

-- The messages that carry the state of a room all travel in one lane, so none of them overtakes
-- another, inside the window, and none is sent by a client alone unless it is an affiliation.
pub carries_room_state-lane :
    (o : Op)
    → carries_room_state o ≡ true
    → (lane o ≡ Lane.session)
      × (outside_window o ≡ false)
      × ((dir o ≡ Dir.s2c) ⊎ (o ≡ Op.affiliation))
unfolding carries_room_state lane outside_window dir
carries_room_state-lane o h = ground arith
