-- ===== src/Wire/Frame/RoundTrip.antt =====
-- crates/oxsig/src/frame.rs: encoding and decoding together.
use oxlens_sfu.Base.{
  ℕ, ◌+◌, ◌*◌, ◌/◌, ◌%◌, ◌≤◌, ◌<◌, ◌^◌, ◌≡◌, ◌≢◌, refl, sym, ◌∙◌, List, ◌∷◌, arith, length, All,
  IsByte, bit_and, bit_or, and_3, and_252, agree_below, agree_below-eq,
}
use oxlens_sfu.Wire.Frame.{
  FrameKind, Header, Frame, Decoded, max_frame_bytes, bits, kind, reserved, decode, encode_flags,
  reply_flags,
}

-- A frame whose words fit, whose kind is not the reserved one and whose length is within the limit
-- is decoded to what was encoded.
pub decode-encode_flags :
    (flags op pid : ℕ) (body : List ℕ)
    → IsByte flags
    → flags % 4 ≢ 3
    → op < 2 ^ 16
    → pid < 2 ^ 32
    → length body + 8 ≤ max_frame_bytes
    → decode (encode_flags flags op pid body)
      ≡ Decoded.ok (record { header = record { flags = flags; op = op; pid = pid }; body = body })
unfolding decode encode_flags
decode-encode_flags flags op pid body hf hk ho hp hb = ground (arith, and_3 flags)

-- A buffer of bytes that is accepted is the encoding of the frame that it is decoded to.
pub encode_flags-decode :
    (buf : List ℕ) (fr : Frame)
    → All IsByte buf
    → decode buf ≡ Decoded.ok fr
    → encode_flags fr.header.flags fr.header.op fr.header.pid fr.body ≡ buf
unfolding decode encode_flags
encode_flags-decode (v ∷ flags ∷ o1 ∷ o0 ∷ p3 ∷ p2 ∷ p1 ∷ p0 ∷ rest) fr h e = ground arith
encode_flags-decode _ fr h e = ground arith

or_0 : (b : ℕ) → b < 256 → bit_or (bit_and b 252) 0 ≡ b / 4 * 4 + 0
unfolding agree_below
or_0 = agree_below-eq (λ b. bit_or (bit_and b 252) 0) (λ b. b / 4 * 4 + 0) 256 refl

or_1 : (b : ℕ) → b < 256 → bit_or (bit_and b 252) 1 ≡ b / 4 * 4 + 1
unfolding agree_below
or_1 = agree_below-eq (λ b. bit_or (bit_and b 252) 1) (λ b. b / 4 * 4 + 1) 256 refl

or_2 : (b : ℕ) → b < 256 → bit_or (bit_and b 252) 2 ≡ b / 4 * 4 + 2
unfolding agree_below
or_2 = agree_below-eq (λ b. bit_or (bit_and b 252) 2) (λ b. b / 4 * 4 + 2) 256 refl

reply_flags-eq :
    (h : Header) (k : FrameKind) → IsByte h.flags → reply_flags h k ≡ h.flags / 4 * 4 + bits k
unfolding reply_flags
reply_flags-eq h FrameKind.request b = or_0 h.flags b
reply_flags-eq h FrameKind.ok b = or_1 h.flags b
reply_flags-eq h FrameKind.fail b = or_2 h.flags b

-- What the three kinds add to the reserved bits of a byte.
added :
    (b : ℕ) (k : FrameKind)
    → b < 256
    → (b / 4 * 4 + bits k < 256)
      × ((b / 4 * 4 + bits k) % 4 ≡ bits k)
      × ((b / 4 * 4 + bits k) / 4 * 4 ≡ b / 4 * 4)
      × (bits k ≢ 3)
unfolding bits
added b FrameKind.request h = omega arith
added b FrameKind.ok h = omega arith
added b FrameKind.fail h = omega arith

kind_of-bits : (h : Header) (k : FrameKind) → bit_and h.flags 3 ≡ bits k → kind h ≡ k
unfolding kind bits
kind_of-bits h FrameKind.request e = ground arith
kind_of-bits h FrameKind.ok e = ground arith
kind_of-bits h FrameKind.fail e = ground arith

-- A reply to a frame is decoded to a header of the reply's kind, with the request's number and
-- reserved bits.
pub decode-reply :
    (req : Header) (k : FrameKind) (body : List ℕ)
    → IsByte req.flags
    → req.op < 2 ^ 16
    → req.pid < 2 ^ 32
    → length body + 8 ≤ max_frame_bytes
    → (fr : Frame) × (decode (encode_flags (reply_flags req k) req.op req.pid body) ≡ Decoded.ok fr)
      × (kind fr.header ≡ k)
      × (reserved fr.header ≡ reserved req)
      × (fr.header.pid ≡ req.pid)
      × (fr.body ≡ body)
unfolding reserved
decode-reply req k body hf ho hp hb = (
  record { header = head; body = body },
  decode-encode_flags head.flags req.op req.pid body small (λ e. sums.3 (sym low ∙ e)) ho hp hb,
  kind_of-bits head k (and_3 head.flags small ∙ low),
  and_252 head.flags small ∙ high ∙ sym (and_252 req.flags hf),
  refl,
  refl,
)
  where
    head : Header
    head = record { flags = reply_flags req k; op = req.op; pid = req.pid }

    sums :
        (req.flags / 4 * 4 + bits k < 256)
        × ((req.flags / 4 * 4 + bits k) % 4 ≡ bits k)
        × ((req.flags / 4 * 4 + bits k) / 4 * 4 ≡ req.flags / 4 * 4)
        × (bits k ≢ 3)
    sums = added req.flags k hf

    small : head.flags < 256
    small = rw (reply_flags-eq req k hf) sums.0

    low : head.flags % 4 ≡ bits k
    low = rw (reply_flags-eq req k hf) sums.1

    high : head.flags / 4 * 4 ≡ req.flags / 4 * 4
    high = rw (reply_flags-eq req k hf) sums.2
