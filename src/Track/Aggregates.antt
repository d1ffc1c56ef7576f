-- ===== src/Track/Aggregates.antt =====
-- crates/oxsfud/src/trk/mod.rs: key frames in H.264 packets that hold several units.
use oxlens_sfu.Base.{
  ℕ, zero, suc, ◌+◌, ◌*◌, ◌/◌, ◌%◌, ◌<◌, ◌≤◌, ◌==◌, ◌≡◌, ◌∙◌, refl, sym, ap, Bool, true, false,
  ◌||◌, List, [], ◌∷◌, ◌++◌, bit_and, length, drop, from_be16, be16, if◌then◌else◌, arith,
  agree_below-eq, agree_below, length-append, drop-append, All,
}
use mathlib.Core.Path.{subst}
use oxlens_sfu.Track.Keyframes.{Bytes, h264_nal_key, stap_loop, h264_key}

-- A unit: its first byte, which has its type, and the rest.
abbrev pub NalUnit : Type 0
NalUnit = ℕ × Bytes

abbrev pub nal_type : NalUnit → ℕ
nal_type n = n.0 % 32

-- The units of an aggregate, each after its length.
unfoldable pub aggregated : List NalUnit → Bytes
aggregated [] = []
aggregated ((h, s) ∷ ns) = be16 (suc (length s)) ++ (h ∷ (s ++ aggregated ns))

unfoldable pub any_key : List NalUnit → Bool
any_key [] = false
any_key (n ∷ ns) = (nal_type n == 5 || nal_type n == 7) || any_key ns

abbrev pub FitsLength : NalUnit → Type 0
FitsLength n = (n.0 < 256) × (length n.1 < 65535)

and_31 : (b : ℕ) → b < 256 → bit_and b 31 ≡ b % 32
unfolding agree_below
and_31 = agree_below-eq (λ b. bit_and b 31) (λ b. b % 32) 256 refl

stap_loop-aggregated :
    (k : ℕ) (ns : List NalUnit)
    → length (aggregated ns) ≤ k
    → All FitsLength ns
    → stap_loop k (aggregated ns) ≡ any_key ns
unfolding stap_loop aggregated any_key h264_nal_key
stap_loop-aggregated zero [] h f = refl
stap_loop-aggregated (suc k) [] h f = refl
stap_loop-aggregated zero (n ∷ ns) h f = absurd (omega arith)
stap_loop-aggregated (suc k) ((b, s) ∷ ns) h f =
    let n = suc (length s) in
    let len : from_be16 (n / 256 % 256) (n % 256) ≡ n = omega arith in
    let size = length-append s (aggregated ns) in
    let rest : stap_loop k (drop (from_be16 (n / 256 % 256) (n % 256)) (b ∷ (s ++ aggregated ns)))
        ≡ any_key ns =
      subst (λ m. stap_loop k (drop m (b ∷ (s ++ aggregated ns))) ≡ any_key ns) (sym len)
        (ap (stap_loop k) (drop-append s (aggregated ns))
          ∙ stap_loop-aggregated k ns (omega arith) f.1) in
    rw (rest, and_31 b f.0.0) (chosen (b % 32 == 5 || b % 32 == 7) (any_key ns))
  where
    chosen : (x y : Bool) → (if x then true else y) ≡ (x || y)
    chosen true y = refl
    chosen false y = refl

-- A packet that holds several units, none of which is too long, is that of a key frame exactly when
-- one of the units is a part of a key picture or the parameters that come before it.
pub h264_key-aggregated :
    (nri : ℕ) (ns : List NalUnit)
    → nri < 4
    → All FitsLength ns
    → h264_key ((nri * 32 + 24) ∷ aggregated ns) ≡ any_key ns
unfolding h264_key
h264_key-aggregated nri ns l f =
    let t : bit_and (nri * 32 + 24) 31 ≡ 24 = and_31 (nri * 32 + 24) (omega arith) ∙ omega arith in
    rw t (stap_loop-aggregated (length (aggregated ns)) ns (omega arith) f)
