-- ===== src/Mesh/Wire/Frames.antt =====
-- crates/oxmesh/src/wire.rs: the frames of a message, and a message put together from its frames.
-- The parts of the reassembler, an array with an entry for each lane, are a function of the lane.
use oxlens_sfu.Base.{
  ℕ, zero, suc, ◌+◌, ◌==◌, List, [], ◌∷◌, ◌++◌, map, Option, none, some, bit_and, length, take,
  drop, ltb, be32, if◌then◌else◌,
}
use oxlens_sfu.Mesh.Wire.Cursor.{Bytes}
use oxlens_sfu.Mesh.Wire.Message.{Lane, Msg, lane, encode}

abbrev pub lane_code : Lane → ℕ
lane_code Lane.control = 0
lane_code Lane.declare = 1
lane_code Lane.request = 2
lane_code Lane.data_lane = 3

-- `Lane::from_u8`.
unfoldable pub lane_from : ℕ → Option Lane
lane_from v =
    if v == 0
    then some Lane.control
    else if v == 1
    then some Lane.declare
    else if v == 2
    then some Lane.request
    else if v == 3
    then some Lane.data_lane
    else none

abbrev pub frame_max : ℕ
frame_max = 16384

abbrev pub frame_head : ℕ
frame_head = 6

abbrev pub msg_max : ℕ
msg_max = 67108864

abbrev pub more : ℕ
more = 1

unfoldable pub frame : Lane → ℕ → Bytes → Bytes
frame l flags chunk = be32 (length chunk + 2) ++ (lane_code l ∷ flags ∷ chunk)

-- `chunks` of a slice, in at most as many steps as it has bytes.
unfoldable pub chunks : ℕ → ℕ → Bytes → List Bytes
chunks room zero b = []
chunks room (suc n) [] = []
chunks room (suc n) (x ∷ b) = take room (x ∷ b) ∷ chunks room n (drop room (x ∷ b))

-- Each chunk with its flags: there are more, or it is the last one.
unfoldable pub flagged : List Bytes → List (ℕ × Bytes)
flagged [] = []
flagged (c ∷ []) = (0, c) ∷ []
flagged (c ∷ d ∷ cs) = (more, c) ∷ flagged (d ∷ cs)

-- What is sent of a body; one empty frame when there is nothing.
unfoldable pub pieces : ℕ → Bytes → List (ℕ × Bytes)
pieces room [] = (0, []) ∷ []
pieces room (x ∷ b) = flagged (chunks room (length (x ∷ b)) (x ∷ b))

unfoldable pub frames : Msg → Lane × List Bytes
frames m = (lane m, map (λ p. frame (lane m) p.0 p.1) (pieces 16378 (encode m)))

pub data Assembled : Type 0 where
  partial : Assembled
  done : Bytes → Assembled
  too_big : Assembled

abbrev pub Reassembler : Type 0
Reassembler = Lane → Bytes

abbrev pub empty_parts : Reassembler
empty_parts l = []

unfoldable pub set_part : Lane → Bytes → Reassembler → Reassembler
set_part l b r = λ k. if lane_code k == lane_code l then b else r k

-- `Reassembler::push`.
unfoldable pub reassemble : Reassembler → Lane → ℕ → Bytes → Reassembler × Assembled
reassemble r l flags chunk =
    let p = r l ++ chunk in
    if ltb msg_max (length (r l) + length chunk)
    then (r, Assembled.too_big)
    else if bit_and flags more == 0
    then (set_part l [] r, Assembled.done p)
    else (set_part l p r, Assembled.partial)
