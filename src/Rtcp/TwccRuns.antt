-- ===== src/Rtcp/TwccRuns.antt =====
-- crates/oxsfud/src/rtcp/core.rs: the transport-wide feedback at concrete inputs.
use oxlens_sfu.Base.{
  ◌≡◌, refl, true, [], ◌∷◌, none, some, arith, ℤ, ◌+ℤ◌, ◌-ℤ◌, scale, div_euclid, wrap,
}
use oxlens_sfu.Rtcp.Twcc.{
  Feedback, TwccRecv, new, unwrapped, highest, unwrap, or_insert, window_with, retain,
  record_arrival, first_from, any_from, pending, get, last_key, delta, in_range, size_symbol,
  status_loop, trim, feedback, build_from, build_window, build,
}
use oxlens_sfu.Rtcp.Twcc.Unwrap.{unwrap_all, unwrap_all_lem}
use oxlens_sfu.Rtcp.Twcc.Reading.{Tells, build-Tells}

-- The numbers 10, 11 and 13, the last of which comes before the wrap of nothing.
abbrev heard : TwccRecv
heard =
    record_arrival (record_arrival (record_arrival new 10 (ℤ.pos 1000000)) 11 (ℤ.pos 1020000)) 13
      (ℤ.pos 1060000)

abbrev told : Feedback × TwccRecv
told = (
  record {
    base_seq = 10;
    status_count = 4;
    reference_time = 15;
    fb_count = 0;
    symbols = 1 ∷ 1 ∷ 0 ∷ 1 ∷ [];
    deltas_250us = ℤ.pos 160 ∷ ℤ.pos 80 ∷ ℤ.pos 160 ∷ [];
  },
  record {
    arrivals =
        (ℤ.pos 10, ℤ.pos 1000000) ∷ (ℤ.pos 11, ℤ.pos 1020000) ∷ (ℤ.pos 13, ℤ.pos 1060000) ∷ [];
    last_unwrapped = some (ℤ.pos 13);
    window_start = some (ℤ.pos 14);
    fb_count = 1;
    newest_us = ℤ.pos 1060000;
  },
)

build-heard : build heard ≡ some told
unfolding new record_arrival unwrap unwrapped highest or_insert window_with retain first_from get
    last_key delta in_range size_symbol status_loop trim feedback build_from build_window build
    scale div_euclid wrap ◌+ℤ◌ ◌-ℤ◌
build-heard = refl

pending-heard : pending heard ≡ true
unfolding pending any_from new record_arrival unwrap unwrapped highest or_insert window_with retain
    first_from wrap ◌+ℤ◌ ◌-ℤ◌
pending-heard = refl

build-Tells_example :
    (w : ℤ) × (reference_time : ℤ) × (heard.window_start ≡ some w)
    × Tells heard w reference_time told
build-Tells_example = build-Tells heard told build-heard

-- The numbers 65530, 65540 and 65535 come as 65530, 4 and 65535.
unwrap_all_lem_example :
    unwrap_all none (65530 ∷ 4 ∷ 65535 ∷ []) ≡ ℤ.pos 65530 ∷ ℤ.pos 65540 ∷ ℤ.pos 65535 ∷ []
unwrap_all_lem_example = unwrap_all_lem 65530 (65540 ∷ 65535 ∷ []) (omega arith) (omega arith)
