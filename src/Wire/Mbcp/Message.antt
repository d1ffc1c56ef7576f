-- ===== src/Wire/Mbcp/Message.antt =====
-- crates/oxsig/src/floor.rs: the encoding of floor control messages. Strings are their UTF-8 bytes.
use oxlens_sfu.Base.{
  ℕ, zero, suc, ◌%◌, ◌==◌, Bool, false, not, ◌&&◌, ◌||◌, List, [], ◌∷◌, ◌++◌, Option, none, some,
  bit_and, bit_or, ltb, length, take, drop, if◌then◌else◌,
}
use oxlens_sfu.Wire.Mbcp.Kinds

abbrev pub max_value : ℕ
max_value = 255

-- One field: its number and its value.
abbrev pub Field : Type 0
Field = ℕ × List ℕ

pub record Msg : Type 0 where
  pub msg_type : ℕ
  pub ack : Bool
  pub tlvs : List Field

unfoldable pub adopted : ℕ → Bool
adopted t =
    t == Kinds.request
    || t == Kinds.granted
    || t == Kinds.taken
    || t == Kinds.deny
    || t == Kinds.release
    || t == Kinds.idle
    || t == Kinds.revoke
    || t == Kinds.qpos_req
    || t == Kinds.qinfo
    || t == Kinds.ack

unfoldable pub ack_allowed : ℕ → Bool
ack_allowed t =
    t == Kinds.granted
    || t == Kinds.taken
    || t == Kinds.deny
    || t == Kinds.release
    || t == Kinds.idle
    || t == Kinds.qinfo

-- `m.tlvs.iter().any(|(_, v)| v.len() > MAX_VALUE)`.
unfoldable pub any_long : List Field → Bool
any_long [] = false
any_long ((id, v) ∷ fs) = ltb max_value (length v) || any_long fs

-- The loop of `encode`.
unfoldable pub encode_fields : List Field → List ℕ
encode_fields [] = []
encode_fields ((id, v) ∷ fs) = id ∷ (length v % 256) ∷ (v ++ encode_fields fs)

unfoldable pub encode : Msg → Option (List ℕ)
unfolding encode_fields any_long ack_allowed
encode m =
    if m.ack && not (ack_allowed m.msg_type)
    then none
    else if ltb 255 (length m.tlvs) || any_long m.tlvs
    then none
    else some (
        bit_or (bit_and m.msg_type 15) (if m.ack then 16 else 0)
        ∷ (length m.tlvs % 256)
        ∷ encode_fields m.tlvs)

-- The loop of `decode`, which stops early where the bytes run out.
unfoldable pub decode_fields : ℕ → List ℕ → List Field
decode_fields zero rest = []
decode_fields (suc n) (id ∷ len ∷ rest) =
    let more = decode_fields n (drop len rest) in
    if ltb (length rest) len then [] else (id, take len rest) ∷ more
decode_fields (suc n) _ = []

unfoldable pub decode : List ℕ → Option Msg
unfolding adopted decode_fields
decode (head ∷ count ∷ rest) =
    let t = bit_and head 15 in
    if not (bit_and head 192 == 0)
    then none
    else if not (adopted t)
    then none
    else some
        (record { msg_type = t; ack = not (bit_and head 16 == 0); tlvs = decode_fields count rest })
decode _ = none
