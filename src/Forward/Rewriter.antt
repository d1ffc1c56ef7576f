-- ===== src/Forward/Rewriter.antt =====
-- crates/oxsfud/src/fwd/core.rs: the rewriter of the sequence numbers and timestamps of one
-- outgoing stream.
use Prim.Native.Nat.{max}
use oxlens_sfu.Base.{
  ℕ, suc, ◌+◌, ◌-◌, ◌*◌, ◌/◌, ◌%◌, ◌==◌, Bool, true, false, not, ◌&&◌, ◌||◌, List, [], ◌∷◌, Option,
  none, some, bit_and, bit_or, ltb, leb, if◌then◌else◌, u32,
}

abbrev pub u16 : ℕ → ℕ
u16 n = n % 65536

-- `wrapping_add` and `wrapping_sub` of 16 and of 32 bits.
abbrev pub add16 : ℕ → ℕ → ℕ
add16 a b = (a + b) % 65536

abbrev pub sub16 : ℕ → ℕ → ℕ
sub16 a b = (a + 65536 - b) % 65536

abbrev pub add32 : ℕ → ℕ → ℕ
add32 a b = (a + b) % 4294967296

abbrev pub sub32 : ℕ → ℕ → ℕ
sub32 a b = (a + 4294967296 - b) % 4294967296

-- The difference is positive as a signed number of 16 bits.
unfoldable pub serial_after : ℕ → ℕ → Bool
serial_after a b = let d = sub16 a b in ltb 0 d && ltb d 32768

-- The tables of frame lengths, in tenths of a millisecond.
abbrev frame_of_four : ℕ → ℕ → ℕ → ℕ → ℕ → ℕ
frame_of_four a b c d i = if i == 0 then a else if i == 1 then b else if i == 2 then c else d

unfoldable pub opus_frame_x10 : ℕ → ℕ
opus_frame_x10 config =
    if leb config 11
    then frame_of_four 100 200 400 600 (config % 4)
    else if leb config 15
    then if config % 2 == 0 then 100 else 200
    else frame_of_four 25 50 100 200 (config % 4)

-- The number of frames, if the payload says it.
unfoldable pub opus_frames : ℕ → List ℕ → Option ℕ
opus_frames toc rest =
    let code = bit_and toc 3 in
    if code == 0 then some 1 else if code == 1 || code == 2 then some 2 else second rest
  where
    second : List ℕ → Option ℕ
    second [] = none
    second (b ∷ _) = some (bit_and b 63)

abbrev pub or_one : ℕ → Option ℕ → ℕ
or_one x10 none = 1
or_one x10 (some frames) = max (x10 * 48 * frames / 10) 1

unfoldable pub opus_toc_samples : List ℕ → ℕ
unfolding opus_frame_x10 opus_frames
opus_toc_samples [] = 1
opus_toc_samples (toc ∷ rest) = or_one (opus_frame_x10 (toc / 8)) (opus_frames toc rest)

unfoldable pub covers : Bool → List ℕ → ℕ
covers audio_opus payload = if audio_opus then opus_toc_samples payload else 1

pub record Last : Type 0 where
  pub seq : ℕ
  pub ts : ℕ
  pub at_ms : ℕ
  pub covers : ℕ

pub record Rewriter : Type 0 where
  pub clock : ℕ
  pub src : Option ℕ
  pub seq_off : ℕ
  pub ts_off : ℕ
  pub last : Option Last
  pub boundary : Option ℕ
  pub switches : ℕ
  pub last_out_at : ℕ

pub record Mapped : Type 0 where
  pub seq : ℕ
  pub ts : ℕ
  pub switched : Bool

unfoldable pub new : ℕ → Rewriter
new clock = record {
  clock = clock;
  src = none;
  seq_off = 0;
  ts_off = 0;
  last = none;
  boundary = none;
  switches = 0;
  last_out_at = 0;
}

abbrev pub is_src : Option ℕ → ℕ → Bool
is_src none s = false
is_src (some t) s = t == s

abbrev pub is_some {ℓ} : {A : Type ℓ} → Option A → Bool
is_some none = false
is_some (some _) = true

-- The timestamp distance that a switch opens, in ticks: what the last packet covers or the time
-- since it, whichever is more. The time is computed in 128 bits and cut to 64.
unfoldable pub tick : ℕ → Last → ℕ → ℕ
tick clock l at_ms =
    let elapsed = max (at_ms - l.at_ms) 1 in
    let ticks = elapsed * clock / 1000 % 18446744073709551616 in
    max (max l.covers 1) ticks % 4294967296

-- The offsets that a switch sets.
unfoldable pub seq_off_for : Option Last → ℕ → ℕ
seq_off_for none seq = 0
seq_off_for (some l) seq = sub16 (add16 l.seq 1) seq

unfoldable pub ts_off_for : ℕ → Option Last → ℕ → ℕ → ℕ
unfolding tick
ts_off_for clock none ts at_ms = 0
ts_off_for clock (some l) ts at_ms = sub32 (add32 l.ts (tick clock l at_ms)) ts

-- `self` after the branch of `map` that turns to another source.
unfoldable pub turn : Rewriter → ℕ → ℕ → ℕ → ℕ → Rewriter
unfolding seq_off_for ts_off_for
turn r src seq ts at_ms =
    let off = seq_off_for r.last seq in
    record r {
      seq_off = off;
      ts_off = ts_off_for r.clock r.last ts at_ms;
      switches = (if is_some r.src || is_some r.last then u32 (suc r.switches) else r.switches);
      src = some src;
      boundary = some (add16 seq off);
    }

unfoldable pub after_last : Option Last → ℕ → Bool
unfolding serial_after
after_last none seq = true
after_last (some l) seq = serial_after seq l.seq

unfoldable pub map : Rewriter → ℕ → ℕ → ℕ → ℕ → ℕ → Rewriter × Mapped
unfolding turn after_last
map r src seq ts at_ms covered =
    let same = is_src r.src src in
    let switched = not same && (is_some r.src || is_some r.last) in
    let r1 = if same then r else turn r src seq ts at_ms in
    let out_seq = add16 seq r1.seq_off in
    let out_ts = add32 ts r1.ts_off in
    let advance = switched || after_last r1.last out_seq in
    let l : Last = record { seq = out_seq; ts = out_ts; at_ms = at_ms; covers = covered } in
    (
      record r1 { last = (if advance then some l else r1.last); last_out_at = at_ms },
      record { seq = out_seq; ts = out_ts; switched = switched },
    )

unfoldable pub before_boundary : Option ℕ → ℕ → Bool
unfolding serial_after
before_boundary none out_seq = false
before_boundary (some b) out_seq = serial_after b out_seq

unfoldable pub unmap_nack : Rewriter → ℕ → Option ℕ
unfolding before_boundary
unmap_nack r out_seq =
    if before_boundary r.boundary out_seq then none else some (sub16 out_seq r.seq_off)

unfoldable pub translate_sr_ts : Rewriter → ℕ → ℕ
translate_sr_ts r rtp_ts = add32 rtp_ts r.ts_off

unfoldable pub pt_byte1 : ℕ → ℕ → ℕ
pt_byte1 byte1 pt = bit_or (bit_and byte1 128) (bit_and pt 127)
