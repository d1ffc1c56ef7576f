-- ===== src/Track/Packets.antt =====
-- crates/oxsfud/src/trk/mod.rs: key frames in VP8 packets.
use oxlens_sfu.Base.{
  ℕ, ◌+◌, ◌*◌, ◌/◌, ◌%◌, ◌<◌, ◌==◌, ◌≡◌, refl, Bool, true, false, not, ◌&&◌, ◌||◌, [], ◌∷◌, ◌++◌,
  Option, none, some, bit_and, if◌then◌else◌, arith, agree_below-eq, agree_below,
}
use oxlens_sfu.Track.Keyframes.{
  Bytes, get, has, frame_key, after_picture, picture, extension, vp8_key,
}
use oxlens_sfu.Track.Descriptors.{
  bit, Picture, Layer, Extension, Descriptor, has_picture, has_level, layer_bits, picture_bytes,
  level_bytes, layer_bytes, extension_bytes, is_extended, first_byte, packet, starts_even, AreBytes,
}

and_1 : (b : ℕ) → b < 256 → bit_and b 1 ≡ b % 2
unfolding agree_below
and_1 = agree_below-eq (λ b. bit_and b 1) (λ b. b % 2) 256 refl

and_7 : (b : ℕ) → b < 256 → bit_and b 7 ≡ b % 8
unfolding agree_below
and_7 = agree_below-eq (λ b. bit_and b 7) (λ b. b % 8) 256 refl

and_16 : (b : ℕ) → b < 256 → bit_and b 16 ≡ b / 16 % 2 * 16
unfolding agree_below
and_16 = agree_below-eq (λ b. bit_and b 16) (λ b. b / 16 % 2 * 16) 256 refl

and_128 : (b : ℕ) → b < 256 → bit_and b 128 ≡ b / 128 * 128
unfolding agree_below
and_128 = agree_below-eq (λ b. bit_and b 128) (λ b. b / 128 * 128) 256 refl

frame_key-get : (frame : Bytes) → AreBytes frame → frame_key (get 0 frame) ≡ starts_even frame
unfolding frame_key get starts_even
frame_key-get [] h = refl
frame_key-get (x ∷ frame) h = rw (and_1 x h.0) refl

and_48 : (b : ℕ) → b < 256 → bit_and b 48 ≡ b / 16 % 4 * 16
unfolding agree_below
and_48 = agree_below-eq (λ b. bit_and b 48) (λ b. b / 16 % 4 * 16) 256 refl

and_64 : (b : ℕ) → b < 256 → bit_and b 64 ≡ b / 64 % 2 * 64
unfolding agree_below
and_64 = agree_below-eq (λ b. bit_and b 64) (λ b. b / 64 % 2 * 64) 256 refl

-- The flags of the extension, with the lowest six bits.
flags : Bool → Bool → ℕ → ℕ
flags i l y = bit i * 128 + bit l * 64 + y

has_picture_bit : (i l : Bool) (y : ℕ) → y < 64 → has (flags i l y) 128 ≡ i
unfolding flags
has_picture_bit i l y h = ground (arith, and_128 (flags i l y))

has_level_bit : (i l : Bool) (y : ℕ) → y < 64 → has (flags i l y) 64 ≡ l
unfolding flags
has_level_bit i l y h = ground (arith, and_64 (flags i l y))

has_layer_bits : (i l : Bool) (y : ℕ) → y < 64 → has (flags i l y) 48 ≡ not (y / 16 == 0)
unfolding flags
has_layer_bits i l y h = ground (arith, and_48 (flags i l y))

after_picture-bytes :
    (x i : ℕ) (p frame : Bytes) (level : Option ℕ) (layers : Layer)
    → (let rest = level_bytes level ++ (layer_bytes layers ++ frame) in
        AreBytes frame
        → has x 64 ≡ has_level level
        → has x 48 ≡ not (layer_bits layers / 16 == 0)
        → get i p ≡ get 0 rest
        → get (i + 1) p ≡ get 1 rest
        → get (i + 1 + 1) p ≡ get 2 rest
        → after_picture x i p ≡ starts_even frame)
unfolding after_picture get
after_picture-bytes x i p frame none Layer.no_layer h u v g0 g1 g2 =
    rw (u, v, g0) (frame_key-get frame h)
after_picture-bytes x i p frame none (Layer.layer false b) h u v g0 g1 g2 =
    rw (u, v, g1) (frame_key-get frame h)
after_picture-bytes x i p frame none (Layer.layer true b) h u v g0 g1 g2 =
    rw (u, v, g1) (frame_key-get frame h)
after_picture-bytes x i p frame none (Layer.key_index b) h u v g0 g1 g2 =
    rw (u, v, g1) (frame_key-get frame h)
after_picture-bytes x i p frame (some l) Layer.no_layer h u v g0 g1 g2 =
    rw (u, v, g1) (frame_key-get frame h)
after_picture-bytes x i p frame (some l) (Layer.layer false b) h u v g0 g1 g2 =
    rw (u, v, g2) (frame_key-get frame h)
after_picture-bytes x i p frame (some l) (Layer.layer true b) h u v g0 g1 g2 =
    rw (u, v, g2) (frame_key-get frame h)
after_picture-bytes x i p frame (some l) (Layer.key_index b) h u v g0 g1 g2 =
    rw (u, v, g2) (frame_key-get frame h)

layer_bits_small : (layers : Layer) → layer_bits layers < 64
layer_bits_small Layer.no_layer = omega arith
layer_bits_small (Layer.layer false b) = omega arith
layer_bits_small (Layer.layer true b) = omega arith
layer_bits_small (Layer.key_index b) = omega arith

module _ (b0 : ℕ) (level : Option ℕ) (layers : Layer) (frame : Bytes) (h : AreBytes frame) where
  rest : Bytes
  rest = level_bytes level ++ (layer_bytes layers ++ frame)

  first : Picture → ℕ
  first id = flags (has_picture id) (has_level level) (layer_bits layers)

  after_first :
      (id : Picture) (i : ℕ) (p : Bytes)
      → get i p ≡ get 0 rest
      → get (i + 1) p ≡ get 1 rest
      → get (i + 1 + 1) p ≡ get 2 rest
      → after_picture (first id) i p ≡ starts_even frame
  unfolding first rest
  after_first id i p =
      let y = layer_bits_small layers in
      after_picture-bytes (first id) i p frame level layers h
        (has_level_bit (has_picture id) (has_level level) (layer_bits layers) y)
        (has_layer_bits (has_picture id) (has_level level) (layer_bits layers) y)

  extension-bytes :
      (id : Picture)
      → (let p = b0 ∷ first id ∷ (picture_bytes id ++ rest) in
          extension (get 1 p) p ≡ starts_even frame)
  unfolding extension picture get
  extension-bytes Picture.no_picture =
      let e : has (first Picture.no_picture) 128 ≡ false =
        unfold first in
        has_picture_bit false (has_level level) (layer_bits layers) (layer_bits_small layers) in
      rw e (after_first Picture.no_picture 2 (b0 ∷ first Picture.no_picture ∷ rest) refl refl refl)
  extension-bytes (Picture.short_picture n) =
      let id = Picture.short_picture n in
      let e : has (first id) 128 ≡ true =
        unfold first in
        has_picture_bit true (has_level level) (layer_bits layers) (layer_bits_small layers) in
      let f : has (n % 128) 128 ≡ false = ground (arith, and_128 (n % 128)) in
      rw (e, f) (after_first id 3 (b0 ∷ first id ∷ n % 128 ∷ rest) refl refl refl)
  extension-bytes (Picture.long_picture n) =
      let id = Picture.long_picture n in
      let high = 128 + n / 256 % 128 in
      let e : has (first id) 128 ≡ true =
        unfold first in
        has_picture_bit true (has_level level) (layer_bits layers) (layer_bits_small layers) in
      let f : has high 128 ≡ true = ground (arith, and_128 high) in
      rw (e, f) (after_first id 4 (b0 ∷ first id ∷ high ∷ n % 256 ∷ rest) refl refl refl)

-- The first byte.
byte_of : Bool → Bool → Bool → ℕ → ℕ
byte_of x n s q = bit x * 128 + bit n * 32 + bit s * 16 + q

extended_bit : (x n s : Bool) (q : ℕ) → q < 8 → has (byte_of x n s q) 128 ≡ x
unfolding byte_of
extended_bit x n s q h = ground (arith, and_128 (byte_of x n s q))

start_bit : (x n s : Bool) (q : ℕ) → q < 8 → (bit_and (byte_of x n s q) 16 == 0) ≡ not s
unfolding byte_of
start_bit x n s q h = ground (arith, and_16 (byte_of x n s q))

partition_bits : (x n s : Bool) (q : ℕ) → q < 8 → has (byte_of x n s q) 7 ≡ not (q == 0)
unfolding byte_of
partition_bits x n s q h = ground (arith, and_7 (byte_of x n s q))

both : (s z k : Bool) → (if not s || not z then false else k) ≡ (s && z && k)
both true true k = refl
both true false k = refl
both false z k = refl

-- What follows the first byte.
after_byte :
    (b0 : ℕ) (o : Option Extension) (frame : Bytes)
    → AreBytes frame
    → (let p = b0 ∷ extension_bytes o frame in
        (if is_extended o then extension (get 1 p) p else frame_key (get 1 p)) ≡ starts_even frame)
unfolding extension_bytes
after_byte b0 none frame h = unfold get in frame_key-get frame h
after_byte b0 (some e) frame h =
    unfold first rest flags in extension-bytes b0 e.level e.layers frame h e.picture_id

-- A VP8 packet is that of a key frame exactly when it is the start of the frame's first partition
-- and the frame begins with an even byte, whatever its descriptor has besides.
pub vp8_key-packet :
    (d : Descriptor) (frame : Bytes)
    → d.partition < 8
    → AreBytes frame
    → vp8_key (packet d frame) ≡ (d.start && d.partition == 0 && starts_even frame)
unfolding vp8_key packet
vp8_key-packet d frame l h =
    let x = is_extended d.extended in
    let n = d.non_reference in
    let a : (bit_and (first_byte d) 16 == 0) ≡ not d.start =
      unfold byte_of in start_bit x n d.start d.partition l in
    let b : has (first_byte d) 7 ≡ not (d.partition == 0) =
      unfold byte_of in partition_bits x n d.start d.partition l in
    let c : has (first_byte d) 128 ≡ x = unfold byte_of in extended_bit x n d.start d.partition l in
    rw (a, b, c, after_byte (first_byte d) d.extended frame h)
      (both d.start (d.partition == 0) (starts_even frame))
