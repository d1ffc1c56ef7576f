-- ===== src/Track/Descriptors.antt =====
-- crates/oxsfud/src/trk/mod.rs: the VP8 packets of RFC 7741, which a payload descriptor begins.
use oxlens_sfu.Base.{
  ℕ, ◌+◌, ◌*◌, ◌/◌, ◌%◌, ◌<◌, ◌==◌, Bool, true, false, [], ◌∷◌, ◌++◌, Option, none, some,
}
use oxlens_sfu.Track.Keyframes.{Bytes}

abbrev pub bit : Bool → ℕ
bit true = 1
bit false = 0

-- A picture number of 7 bits or of 15.
pub data Picture : Type 0 where
  no_picture : Picture
  short_picture : ℕ → Picture
  long_picture : ℕ → Picture

-- The byte of the temporal layer and the key index, with the flags for the two.
pub data Layer : Type 0 where
  no_layer : Layer
  layer : Bool → ℕ → Layer
  key_index : ℕ → Layer

pub record Extension : Type 0 where
  pub picture_id : Picture
  pub level : Option ℕ
  pub layers : Layer

pub record Descriptor : Type 0 where
  pub non_reference : Bool
  pub start : Bool
  pub partition : ℕ
  pub extended : Option Extension

abbrev pub has_picture : Picture → Bool
has_picture Picture.no_picture = false
has_picture p = true

abbrev pub has_level : Option ℕ → Bool
has_level none = false
has_level (some l) = true

abbrev pub layer_bits : Layer → ℕ
layer_bits Layer.no_layer = 0
layer_bits (Layer.layer false b) = 32
layer_bits (Layer.layer true b) = 48
layer_bits (Layer.key_index b) = 16

abbrev pub picture_bytes : Picture → Bytes
picture_bytes Picture.no_picture = []
picture_bytes (Picture.short_picture n) = n % 128 ∷ []
picture_bytes (Picture.long_picture n) = (128 + n / 256 % 128) ∷ n % 256 ∷ []

abbrev pub level_bytes : Option ℕ → Bytes
level_bytes none = []
level_bytes (some l) = l ∷ []

abbrev pub layer_bytes : Layer → Bytes
layer_bytes Layer.no_layer = []
layer_bytes (Layer.layer k b) = b ∷ []
layer_bytes (Layer.key_index b) = b ∷ []

unfoldable pub extension_bytes : Option Extension → Bytes → Bytes
extension_bytes none frame = frame
extension_bytes (some e) frame =
    (bit (has_picture e.picture_id) * 128 + bit (has_level e.level) * 64 + layer_bits e.layers)
    ∷ (picture_bytes e.picture_id ++ (level_bytes e.level ++ (layer_bytes e.layers ++ frame)))

abbrev pub is_extended : Option Extension → Bool
is_extended none = false
is_extended (some e) = true

abbrev pub first_byte : Descriptor → ℕ
first_byte d =
    bit (is_extended d.extended) * 128 + bit d.non_reference * 32 + bit d.start * 16 + d.partition

-- A packet: its descriptor, and its part of the frame.
unfoldable pub packet : Descriptor → Bytes → Bytes
packet d frame = first_byte d ∷ extension_bytes d.extended frame

-- The first byte of a key frame is even.
unfoldable pub starts_even : Bytes → Bool
starts_even [] = false
starts_even (h ∷ frame) = h % 2 == 0

abbrev pub AreBytes : Bytes → Type 0
AreBytes [] = Unit {0}
AreBytes (x ∷ xs) = (x < 256) × AreBytes xs
