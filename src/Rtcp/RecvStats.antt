-- ===== src/Rtcp/RecvStats.antt =====
-- crates/oxsfud/src/rtcp/core.rs: the statistics of one received stream (RFC 3550). The jitter is
-- a floating-point number in the code: its type and its two operations are parameters.
use oxlens_sfu.Base.{
  ℕ, suc, ◌+◌, ◌-◌, ◌*◌, ◌/◌, ◌%◌, ◌==◌, Bool, true, false, not, ◌||◌, Option, none, some, ltb, leb,
  u32, if◌then◌else◌, ℤ, sub_ℕ, clamp,
}
use Prim.Native.Nat.{min}

abbrev pub min_sequential : ℕ
min_sequential = 2

abbrev pub max_dropout : ℕ
max_dropout = 3000

abbrev pub max_misorder : ℕ
max_misorder = 100

abbrev pub seq_mod : ℕ
seq_mod = 65536

-- `wrapping_sub` of 32 bits.
abbrev pub sub32 : ℕ → ℕ → ℕ
sub32 a b = (a + 4294967296 - b) % 4294967296

-- `(a.wrapping_sub(b) as i32).unsigned_abs()`.
abbrev pub distance : ℕ → ℕ → ℕ
distance a b = let d = sub32 a b in if ltb d 2147483648 then d else 4294967296 - d

pub record RecvStats (J : Type 0) : Type 0 where
  pub clock : ℕ
  pub max_seq : ℕ
  pub cycles : ℕ
  pub base_seq : ℕ
  pub bad_seq : ℕ
  pub probation : ℕ
  pub received : ℕ
  pub expected_prior : ℕ
  pub received_prior : ℕ
  pub transit : Option ℕ
  pub jitter : J
  pub started : Bool
  pub packets : ℕ
  pub bytes : ℕ

pub record Report : Type 0 where
  pub fraction : ℕ
  pub lost : ℤ
  pub extended_max : ℕ
  pub jitter : ℕ

module _ {J : Type 0} where
  unfoldable pub init_seq : RecvStats J → ℕ → RecvStats J
  init_seq r seq = record r {
    base_seq = seq;
    max_seq = seq;
    bad_seq = seq_mod + 1;
    cycles = 0;
    received = 0;
    received_prior = 0;
    expected_prior = 0;
  }

  -- The first packet puts the stream on probation.
  unfoldable pub begin : RecvStats J → ℕ → RecvStats J
  unfolding init_seq
  begin r seq = if r.started then r else record (init_seq (record r { started = true }) seq) {
    max_seq = (seq + 65535) % 65536;
    probation = min_sequential;
  }

  unfoldable pub on_probation : RecvStats J → ℕ → RecvStats J × Bool
  unfolding init_seq
  on_probation r seq =
      if seq == (r.max_seq + 1) % 65536
      then (if r.probation - 1 == 0
          then (
            record (init_seq (record r { probation = 0; max_seq = seq }) seq) { received = 1 },
            true,
          )
          else (record r { probation = r.probation - 1; max_seq = seq }, false))
      else (record r { probation = min_sequential - 1; max_seq = seq }, false)

  -- The last step: the packet is counted.
  abbrev pub count : RecvStats J → RecvStats J × Bool
  count r = (record r { received = u32 (suc r.received) }, true)

  unfoldable pub in_sequence : RecvStats J → ℕ → RecvStats J × Bool
  unfolding init_seq
  in_sequence r seq =
      let udelta = (seq + 65536 - r.max_seq) % 65536 in
      if ltb udelta max_dropout
      then count (record r {
        cycles = (if ltb seq r.max_seq then u32 (r.cycles + seq_mod) else r.cycles);
        max_seq = seq;
      })
      else if leb udelta (seq_mod - max_misorder)
      then (if seq == r.bad_seq
          then count (init_seq r seq)
          else (record r { bad_seq = (seq + 1) % seq_mod }, false))
      else count r

  unfoldable pub update_seq : RecvStats J → ℕ → RecvStats J × Bool
  unfolding begin on_probation in_sequence
  update_seq r seq =
      let r1 = begin r seq in if ltb 0 r1.probation then on_probation r1 seq else in_sequence r1 seq

  unfoldable pub extended_max : RecvStats J → ℕ
  extended_max r = u32 (r.cycles + r.max_seq)

  -- `jitter += (d - jitter) / 16`, which `smooth` is, and the cut to a whole number.
  module _ (smooth : J → ℕ → J) (whole : J → ℕ) where
    unfoldable pub update : RecvStats J → ℕ → ℕ → ℕ → ℕ → RecvStats J × Bool
    unfolding update_seq
    update r seq ts arrival_ms bytes =
        let (r1, valid) = update_seq r seq in
        let transit = sub32 (arrival_ms * r1.clock / 1000 % 4294967296) ts in
        (
          record r1 {
            packets = (r1.packets + 1) % 18446744073709551616;
            bytes = (r1.bytes + bytes) % 18446744073709551616;
            jitter = smoothed r1.transit transit r1.jitter;
            transit = some transit;
          },
          valid,
        )
      where
        smoothed : Option ℕ → ℕ → J → J
        smoothed none t j = j
        smoothed (some prev) t j = smooth j (distance t prev)

    -- `(lost_interval << 8) / expected_interval`, or 0 where nothing was lost.
    abbrev pub fraction_lost : ℕ → ℕ → ℕ
    fraction_lost expected received =
        if expected == 0 || leb expected received
        then 0
        else min ((expected - received) * 256 / expected) 255

    unfoldable pub report : RecvStats J → Option (Report × RecvStats J)
    unfolding extended_max
    report r =
        if not r.started || ltb 0 r.probation
        then none
        else (let ext = extended_max r in
            let expected = (sub32 ext r.base_seq + 1) % 4294967296 in
            some (
              record {
                fraction =
                    fraction_lost (sub32 expected r.expected_prior)
                      (sub32 r.received r.received_prior);
                lost = clamp 8388608 8388607 (sub_ℕ expected r.received);
                extended_max = ext;
                jitter = whole r.jitter;
              },
              record r { expected_prior = expected; received_prior = r.received },
            ))

  unfoldable pub new : J → ℕ → RecvStats J
  new j clock = record {
    clock = clock;
    max_seq = 0;
    cycles = 0;
    base_seq = 0;
    bad_seq = 0;
    probation = 0;
    received = 0;
    expected_prior = 0;
    received_prior = 0;
    transit = none;
    jitter = j;
    started = false;
    packets = 0;
    bytes = 0;
  }
