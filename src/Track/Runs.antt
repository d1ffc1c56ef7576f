-- ===== src/Track/Runs.antt =====
-- crates/oxsfud/src/trk/mod.rs: concrete packets.
use oxlens_sfu.Base.{◌≡◌, refl, true, false, [], ◌∷◌, List, some, arith}
use oxlens_sfu.Track.Keyframes.{vp8_key, h264_key, is_keyframe, eq_ignore_ascii_case, lower}
use oxlens_sfu.Track.Aggregates.{NalUnit, aggregated, any_key, h264_key-aggregated}
use oxlens_sfu.Track.Descriptors.{Picture, Layer, Descriptor, packet, extension_bytes, starts_even}
use oxlens_sfu.Track.Packets.{vp8_key-packet}

-- A unit of another kind, and then the parameters.
abbrev units : List NalUnit
units = (65, 1 ∷ []) ∷ (103, 2 ∷ 3 ∷ []) ∷ []

h264_key-aggregated_example : h264_key (120 ∷ 0 ∷ 2 ∷ 65 ∷ 1 ∷ 0 ∷ 3 ∷ 103 ∷ 2 ∷ 3 ∷ []) ≡ true
unfolding aggregated any_key
h264_key-aggregated_example = h264_key-aggregated 3 units (omega arith) (omega arith)

-- The start of a frame, with a long picture number, a level and a layer.
abbrev descriptor : Descriptor
descriptor = record {
  non_reference = false;
  start = true;
  partition = 0;
  extended = some (record {
    picture_id = Picture.long_picture 4660;
    level = some 9;
    layers = Layer.layer false 64;
  });
}

vp8_key-packet_example : vp8_key (packet descriptor (16 ∷ 1 ∷ [])) ≡ true
unfolding starts_even
vp8_key-packet_example = vp8_key-packet descriptor (16 ∷ 1 ∷ []) (omega arith) (omega arith)

packet_bytes : packet descriptor (16 ∷ []) ≡ 144 ∷ 224 ∷ 146 ∷ 52 ∷ 9 ∷ 64 ∷ 16 ∷ []
unfolding packet extension_bytes
packet_bytes = refl

other_codec : is_keyframe (86 ∷ 80 ∷ 57 ∷ []) (16 ∷ 0 ∷ []) ≡ false
unfolding is_keyframe eq_ignore_ascii_case lower
other_codec = refl
