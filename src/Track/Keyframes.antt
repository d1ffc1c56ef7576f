-- ===== src/Track/Keyframes.antt =====
-- crates/oxsfud/src/trk/mod.rs: the packets that start a key frame. A codec is named by its bytes.
use oxlens_sfu.Base.{
  ℕ, zero, suc, ◌+◌, ◌==◌, Bool, true, false, not, ◌&&◌, ◌||◌, List, [], ◌∷◌, Option, none, some,
  bit_and, length, drop, leb, from_be16, if◌then◌else◌,
}

abbrev pub Bytes : Type 0
Bytes = List ℕ

-- `p.get(i)`.
unfoldable pub get : ℕ → Bytes → Option ℕ
get i [] = none
get zero (x ∷ p) = some x
get (suc i) (x ∷ p) = get i p

unfoldable pub lower : ℕ → ℕ
lower c = if leb 65 c && leb c 90 then c + 32 else c

unfoldable pub eq_ignore_ascii_case : Bytes → Bytes → Bool
eq_ignore_ascii_case [] [] = true
eq_ignore_ascii_case (x ∷ a) (y ∷ b) = lower x == lower y && eq_ignore_ascii_case a b
eq_ignore_ascii_case _ _ = false

-- "VP8" and "H264".
abbrev pub vp8 : Bytes
vp8 = 86 ∷ 80 ∷ 56 ∷ []

abbrev pub h264 : Bytes
h264 = 72 ∷ 50 ∷ 54 ∷ 52 ∷ []

abbrev pub has : ℕ → ℕ → Bool
has b mask = not (bit_and b mask == 0)

-- The first byte of the frame, whose lowest bit is not set in a key frame.
unfoldable pub frame_key : Option ℕ → Bool
frame_key none = false
frame_key (some h) = bit_and h 1 == 0

-- After the picture number: the bytes of the level, and of the layer and the key index.
unfoldable pub after_picture : ℕ → ℕ → Bytes → Bool
after_picture x i p =
    let i1 = if has x 64 then i + 1 else i in
    let i2 = if has x 48 then i1 + 1 else i1 in frame_key (get i2 p)

unfoldable pub picture : ℕ → Option ℕ → Bytes → Bool
picture x none p = false
picture x (some pid) p = after_picture x (if has pid 128 then 4 else 3) p

unfoldable pub extension : Option ℕ → Bytes → Bool
extension none p = false
extension (some x) p = if has x 128 then picture x (get 2 p) p else after_picture x 2 p

unfoldable pub vp8_key : Bytes → Bool
vp8_key [] = false
vp8_key (b0 ∷ rest) =
    let p = b0 ∷ rest in
    if bit_and b0 16 == 0 || has b0 7
    then false
    else if has b0 128
    then extension (get 1 p) p
    else frame_key (get 1 p)

unfoldable pub h264_nal_key : ℕ → Bool
h264_nal_key t = t == 5 || t == 7

-- The loop over the units of an aggregate, from a place on; a round takes two bytes or more.
unfoldable pub stap_loop : ℕ → Bytes → Bool
stap_loop zero s = false
stap_loop (suc k) (l0 ∷ l1 ∷ h ∷ s) =
    let rest = stap_loop k (drop (from_be16 l0 l1) (h ∷ s)) in
    if h264_nal_key (bit_and h 31) then true else rest
stap_loop (suc k) s = false

unfoldable pub fu_key : Bytes → Bool
fu_key [] = false
fu_key (h ∷ s) = has h 128 && h264_nal_key (bit_and h 31)

unfoldable pub h264_key : Bytes → Bool
h264_key [] = false
h264_key (b0 ∷ rest) =
    let t = bit_and b0 31 in
    if t == 24
    then stap_loop (length rest) rest
    else if t == 28
    then fu_key rest
    else h264_nal_key t

unfoldable pub is_keyframe : Bytes → Bytes → Bool
is_keyframe codec p =
    if eq_ignore_ascii_case codec vp8
    then vp8_key p
    else if eq_ignore_ascii_case codec h264
    then h264_key p
    else false
