-- ===== src/Forward/Octets.antt =====
-- crates/oxsfud/src/fwd/core.rs: what is read from and written to single bytes of a packet.
use oxlens_sfu.Base.{
  ℕ, ◌||◌, ◌+◌, ◌*◌, ◌/◌, ◌%◌, ◌≤◌, ◌<◌, ◌≡◌, refl, List, [], ◌∷◌, Option, none, some, arith, All,
  IsByte, agree_below, agree_below-eq, and_127, and_128, or_high, bit_and, bit_or, if_cases, ◌==◌,
}
use native.Mathlib.Nat.{mul-le-mul}
use oxlens_sfu.Forward.Rewriter.{opus_frame_x10, opus_frames, opus_toc_samples, or_one, pt_byte1}

opus_frame_x10-bound : (c : ℕ) → opus_frame_x10 c ≤ 600
unfolding opus_frame_x10
opus_frame_x10-bound c = ground arith

and_63 : (b : ℕ) → b < 256 → bit_and b 63 ≡ b % 64
unfolding agree_below
and_63 = agree_below-eq (λ b. bit_and b 63) (λ b. b % 64) 256 refl

-- A payload type of seven bits takes the lower seven bits of its byte, and the marker bit stays.
pub pt_byte1-parts :
    (byte1 pt : ℕ)
    → IsByte byte1
    → pt < 128
    → (pt_byte1 byte1 pt / 128 ≡ byte1 / 128) × (pt_byte1 byte1 pt % 128 ≡ pt)
unfolding pt_byte1
pt_byte1-parts byte1 pt h k =
    let e : bit_or (bit_and byte1 128) (bit_and pt 127) ≡ byte1 / 128 * 128 + pt % 128 =
      rw (and_128 byte1 h, and_127 pt (omega arith))
        (or_high (byte1 / 128) (pt % 128) (omega arith) (omega arith)) in
    (rw e (omega arith), rw e (omega arith))

or_one-bounds :
    (x n : ℕ) → x ≤ 600 → n ≤ 63 → (1 ≤ or_one x (some n)) × (or_one x (some n) ≤ 181440)
or_one-bounds x n h k =
    let m : x * 48 * n ≤ 28800 * 63 = mul-le-mul {n₂ = 28800} (omega arith) k in
    (omega arith, omega arith)

Few : Option ℕ → Type 0
Few none = Unit {0}
Few (some n) = n ≤ 63

opus_frames-Few : (toc : ℕ) (rest : List ℕ) → All IsByte rest → Few (opus_frames toc rest)
unfolding opus_frames Few
opus_frames-Few toc [] h =
    if_cases Few (bit_and toc 3 == 0) (λ _. omega arith)
      (λ _. if_cases Few (bit_and toc 3 == 1 || bit_and toc 3 == 2) (λ _. omega arith) (λ _. _))
opus_frames-Few toc (b ∷ rest) (h, _) =
    if_cases Few (bit_and toc 3 == 0) (λ _. omega arith)
      (λ _.
        if_cases Few (bit_and toc 3 == 1 || bit_and toc 3 == 2) (λ _. omega arith)
          (λ _. omega (arith, and_63 b h)))

or_one-Few : (x : ℕ) (o : Option ℕ) → x ≤ 600 → Few o → (1 ≤ or_one x o) × (or_one x o ≤ 181440)
unfolding Few
or_one-Few x none h k = (omega arith, omega arith)
or_one-Few x (some n) h k = or_one-bounds x n h k

-- For any payload of bytes, an Opus packet covers at least one sample, and at most 63 frames of
-- 60 milliseconds at 48 kHz.
pub opus_toc_samples-bounds :
    (payload : List ℕ)
    → All IsByte payload
    → (1 ≤ opus_toc_samples payload) × (opus_toc_samples payload ≤ 181440)
unfolding opus_toc_samples
opus_toc_samples-bounds [] h = (omega arith, omega arith)
opus_toc_samples-bounds (toc ∷ rest) (_, h) =
    or_one-Few (opus_frame_x10 (toc / 8)) (opus_frames toc rest) (opus_frame_x10-bound (toc / 8))
      (opus_frames-Few toc rest h)
