-- ===== src/Rtcp/Runs.antt =====
-- crates/oxsfud/src/rtcp/core.rs: a concrete stream, with a jitter in whole numbers.
use oxlens_sfu.Base.{ℕ, ◌+◌, ◌*◌, ◌/◌, ◌≡◌, List, [], ◌∷◌, some, arith, ℤ}
use oxlens_sfu.Rtcp.RecvStats.{RecvStats, Report, report}
use oxlens_sfu.Rtcp.Loss.{Arrival, receive, opened, report-lost}

abbrev smooth : ℕ → ℕ → ℕ
smooth j d = (j * 15 + d) / 16

abbrev whole : ℕ → ℕ
whole j = j

abbrev after : ℕ → Arrival
after n = record { skipped = n; ts = 960; at_ms = 20; bytes = 80 }

-- Three numbers are skipped on the way over the wrap-around.
abbrev arrivals : List Arrival
arrivals = after 0 ∷ after 3 ∷ after 0 ∷ []

report-lost_example :
    (rep : Report) × (r' : RecvStats ℕ) × (report smooth whole (
        receive smooth whole (opened smooth whole 0 48000 65533 (after 0) (after 0)) 65534 arrivals)
      ≡ some (rep, r'))
    × (rep.lost ≡ ℤ.pos 3)
report-lost_example =
    report-lost smooth whole 0 48000 65533 (after 0) (after 0) arrivals (omega arith)
      (omega arith, (omega arith, (omega arith, _))) (omega arith)
