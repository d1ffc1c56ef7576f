-- ===== src/Wire/Mbcp/Build.antt =====
-- crates/oxsig/src/floor.rs: the accessors of a message and the builders of the messages.
use oxlens_sfu.Base.{
  ℕ, ◌==◌, Bool, true, false, List, [], ◌∷◌, ◌++◌, Option, none, some, be16, from_be16,
  if◌then◌else◌,
}
use oxlens_sfu.Wire.Mbcp.Message.{Msg, Field}
use oxlens_sfu.Wire.Mbcp.Kinds
use oxlens_sfu.Wire.Mbcp.Fields

-- `Msg::new`.
abbrev pub msg : ℕ → Bool → Msg
msg t a = record { msg_type = t; ack = a; tlvs = [] }

unfoldable pub find_field : ℕ → List Field → Option (List ℕ)
find_field id [] = none
find_field id ((i, v) ∷ fs) = let rest = find_field id fs in if i == id then some v else rest

unfoldable pub get : Msg → ℕ → Option (List ℕ)
unfolding find_field
get m id = find_field id m.tlvs

-- `if b.len() == 2 { Some(b[0]) } else { None }`.
abbrev first_of_two : Option (List ℕ) → Option ℕ
first_of_two (some (a ∷ b ∷ [])) = some a
first_of_two _ = none

abbrev word_of_two : Option (List ℕ) → Option ℕ
word_of_two (some (a ∷ b ∷ [])) = some (from_be16 a b)
word_of_two _ = none

abbrev first_of_any : Option (List ℕ) → Option ℕ
first_of_any (some (a ∷ _)) = some a
first_of_any _ = none

unfoldable pub priority : Msg → Option ℕ
unfolding get
priority m = first_of_two (get m Fields.priority)

unfoldable pub seq : Msg → Option ℕ
unfolding get
seq m = word_of_two (get m Fields.seq)

unfoldable pub ack_of : Msg → Option ℕ
unfolding get
ack_of m = first_of_two (get m Fields.acktype)

unfoldable pub cause : Msg → Option ℕ
unfolding get
cause m = first_of_any (get m Fields.cause)

unfoldable pub push : Msg → ℕ → List ℕ → Msg
push m id v = record m { tlvs = m.tlvs ++ ((id, v) ∷ []) }

abbrev pub u8spare : ℕ → List ℕ
u8spare v = v ∷ 0 ∷ []

-- `Some(v)` adds a field, `None` none.
abbrev pub push_some : Msg → ℕ → Option (List ℕ) → Msg
unfolding push
push_some m id none = m
push_some m id (some v) = push m id v

abbrev pub map_u8spare : Option ℕ → Option (List ℕ)
map_u8spare none = none
map_u8spare (some p) = some (u8spare p)

unfoldable pub request : List ℕ → Option ℕ → Msg
unfolding push
request room p =
    push_some (push (msg Kinds.request false) Fields.room room) Fields.priority (map_u8spare p)

unfoldable pub granted : ℕ → ℕ → List ℕ → Msg
unfolding push
granted p duration_s room =
    push
      (push (push (msg Kinds.granted true) Fields.priority (u8spare p)) Fields.duration
        (be16 duration_s))
      Fields.room room

unfoldable pub taken : List ℕ → ℕ → List ℕ → Msg
unfolding push
taken speaker n room =
    push (push (push (msg Kinds.taken true) Fields.speaker speaker) Fields.seq (be16 n)) Fields.room
      room

unfoldable pub deny_msg : ℕ → List ℕ → Option (List ℕ) → Msg
unfolding push
deny_msg c room reason =
    push_some (push (push (msg Kinds.deny true) Fields.cause (c ∷ [])) Fields.room room)
      Fields.reason reason

unfoldable pub release : List ℕ → Msg
unfolding push
release room = push (msg Kinds.release false) Fields.room room

unfoldable pub idle : ℕ → List ℕ → Option (List ℕ) → Msg
unfolding push
idle n room prev =
    push_some (push (push (msg Kinds.idle false) Fields.seq (be16 n)) Fields.room room) Fields.prev
      prev

unfoldable pub revoke_msg : ℕ → List ℕ → Option (List ℕ) → Msg
unfolding push
revoke_msg c room reason =
    push_some (push (push (msg Kinds.revoke false) Fields.cause (c ∷ [])) Fields.room room)
      Fields.reason reason

unfoldable pub queue_pos_request : List ℕ → Msg
unfolding push
queue_pos_request room = push (msg Kinds.qpos_req false) Fields.room room

unfoldable pub queue_info : ℕ → ℕ → List ℕ → Msg
unfolding push
queue_info position p room =
    push (push (msg Kinds.qinfo false) Fields.qinfo (position ∷ p ∷ [])) Fields.room room

unfoldable pub ack : ℕ → List ℕ → Msg
unfolding push
ack of room = push (push (msg Kinds.ack false) Fields.acktype (u8spare of)) Fields.room room
