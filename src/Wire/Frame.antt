-- ===== src/Wire/Frame.antt =====
-- crates/oxsig/src/frame.rs: frames of the signalling channel, eight bytes and a body.
pub mod RoundTrip
use oxlens_sfu.Base.{
  ℕ, suc, ◌+◌, ◌-◌, ◌*◌, ◌/◌, ◌%◌, ◌≤◌, ◌<◌, ◌^◌, ◌==◌, ◌≡◌, ◌≢◌, refl, Bool, true, false, not,
  List, [], ◌∷◌, ◌++◌, arith, ltb, length, All, IsByte, bit_and, bit_or, be16, be32, from_be16,
  from_be32, and_3, and_252, agree_below, agree_below-eq, if◌then◌else◌,
}

abbrev pub ver : ℕ
ver = 1

abbrev pub header_len : ℕ
header_len = 8

abbrev pub max_frame_bytes : ℕ
max_frame_bytes = 1048576

abbrev pub kind_mask : ℕ
kind_mask = 3

pub data FrameKind : Type 0 where
  request ok fail : FrameKind

unfoldable pub bits : FrameKind → ℕ
bits FrameKind.request = 0
bits FrameKind.ok = 1
bits FrameKind.fail = 2

pub record Header : Type 0 where
  pub flags : ℕ
  pub op : ℕ
  pub pid : ℕ

unfoldable pub kind : Header → FrameKind
kind h =
    let k = bit_and h.flags kind_mask in
    if k == 0 then FrameKind.request else if k == 1 then FrameKind.ok else FrameKind.fail

-- `flags & !KIND_MASK` on a byte.
unfoldable pub reserved : Header → ℕ
reserved h = bit_and h.flags (255 - kind_mask)

pub record Frame : Type 0 where
  pub header : Header
  pub body : List ℕ

pub data FrameError : Type 0 where
  too_short too_large bad_version reserved_kind : FrameError

pub data Decoded : Type 0 where
  ok : Frame → Decoded
  err : FrameError → Decoded

unfoldable pub decode_bytes : List ℕ → Decoded
decode_bytes (v ∷ flags ∷ o1 ∷ o0 ∷ p3 ∷ p2 ∷ p1 ∷ p0 ∷ rest) =
    if not (v == ver)
    then Decoded.err FrameError.bad_version
    else if bit_and flags kind_mask == kind_mask
    then Decoded.err FrameError.reserved_kind
    else Decoded.ok (record {
      header = record { flags = flags; op = from_be16 o1 o0; pid = from_be32 p3 p2 p1 p0 };
      body = rest;
    })
decode_bytes _ = Decoded.err FrameError.too_short

unfoldable pub decode : List ℕ → Decoded
unfolding decode_bytes
decode buf =
    if ltb max_frame_bytes (length buf) then Decoded.err FrameError.too_large else decode_bytes buf

unfoldable pub encode_flags : ℕ → ℕ → ℕ → List ℕ → List ℕ
encode_flags flags op pid body = ver ∷ flags ∷ (be16 op ++ (be32 pid ++ body))

unfoldable pub encode : FrameKind → ℕ → ℕ → List ℕ → List ℕ
unfolding encode_flags bits
encode k op pid body = encode_flags (bits k) op pid body

unfoldable pub reply_flags : Header → FrameKind → ℕ
unfolding reserved bits
reply_flags req k = bit_or (reserved req) (bits k)
