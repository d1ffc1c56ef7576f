-- ===== src/Rtcp/Loss.antt =====
-- crates/oxsfud/src/rtcp/core.rs: what the statistics of a stream count.
use oxlens_sfu.Base.{
  ℕ, ◌+◌, ◌-◌, ◌%◌, ◌≤◌, ◌<◌, ◌==◌, ◌≡◌, refl, sym, ap, ◌∙◌, true, false, List, [], ◌∷◌, some,
  arith, ltb, not, ◌||◌, ℤ, sub_ℕ, clamp, length,
}
use Prim.Native.Nat.{min}
use mathlib.Core.Path.{subst}
use oxlens_sfu.Rtcp.RecvStats.{
  RecvStats, Report, update_seq, extended_max, update, report, new, sub32, max_dropout,
}
use oxlens_sfu.Rtcp.Sequence.{
  Going, delta, less, above, chosen, update_seq-jumped, jumped-Going, first_seq, second_seq,
}

-- A packet that skips `skipped` numbers after the highest one so far.
pub record Arrival : Type 0 where
  pub skipped : ℕ
  pub ts : ℕ
  pub at_ms : ℕ
  pub bytes : ℕ

-- How many numbers are skipped in all, each time fewer than the limit of a jump.
abbrev pub lost_of : List Arrival → ℕ
lost_of [] = 0
lost_of (a ∷ rest) = a.skipped + lost_of rest

abbrev pub Forwards : List Arrival → Type 0
Forwards [] = Unit {0}
Forwards (a ∷ rest) = (a.skipped + 1 < max_dropout) × Forwards rest

module _ {J : Type 0} where
  -- What `update` leaves of the sequence numbers is what `update_seq` makes of them.
  module _ (smooth : J → ℕ → J) (whole : J → ℕ) where
    update-Going :
        (r : RecvStats J) (a : Arrival) (s k n : ℕ)
        → Going r s k n
        → a.skipped + 1 < max_dropout
        → k + a.skipped + 200000 < 4294967296
        → n + 1 < 4294967296
        → let seq = (s + (a.skipped + 1)) % 65536 in
          Going (update smooth whole r seq a.ts a.at_ms a.bytes).0 seq (k + (a.skipped + 1)) (n + 1)
    unfolding update
    update-Going r a s k n v h b c =
        let seq = (s + (a.skipped + 1)) % 65536 in
        let small : ltb ((seq + 65536 - r.max_seq) % 65536) max_dropout ≡ true =
          less seq s r.max_seq a.skipped (delta s a.skipped v.word h) h v.at in
        let w : Going (update_seq r seq).0 seq (k + (a.skipped + 1)) (n + 1) =
          subst (λ q. Going q seq (k + (a.skipped + 1)) (n + 1))
            (sym (update_seq-jumped r seq v.started (ap (ltb 0) v.off) small))
            (jumped-Going r s k n a.skipped v h b c) in
        record {
          started = w.started;
          off = w.off;
          at = w.at;
          word = w.word;
          base = w.base;
          far = w.far;
          count = w.count;
        }

    moved : {r : RecvStats J} {s k n k' n' : ℕ} → k ≡ k' → n ≡ n' → Going r s k n → Going r s k' n'
    moved {r} {s} p q v = subst (λ (x : ℕ × ℕ). Going r s x.0 x.1) (λ i. (p i, q i)) v

    -- The statistics after the arrivals.
    unfoldable pub receive : RecvStats J → ℕ → List Arrival → RecvStats J
    receive r s [] = r
    receive r s (a ∷ rest) =
        let seq = (s + (a.skipped + 1)) % 65536 in
        receive (update smooth whole r seq a.ts a.at_ms a.bytes).0 seq rest

    receive-Going :
        (r : RecvStats J) (arrivals : List Arrival) (s k n : ℕ)
        → Going r s k n
        → Forwards arrivals
        → k + lost_of arrivals + length arrivals + 200000 < 4294967296
        → n + length arrivals < 4294967296
        → (t : ℕ) × Going
            (receive r s arrivals)
            t
            (k + (lost_of arrivals + length arrivals))
            (n + length arrivals)
    unfolding receive
    receive-Going r [] s k n v h b c = (s, moved (omega arith) (omega arith) v)
    receive-Going r (a ∷ rest) s k n v (g, h) b c =
        let seq = (s + (a.skipped + 1)) % 65536 in
        let w = update-Going r a s k n v g (omega arith) (omega arith) in
        let (t, x) =
          receive-Going (update smooth whole r seq a.ts a.at_ms a.bytes).0 rest seq
            (k + (a.skipped + 1)) (n + 1) w h (omega arith) (omega arith) in
        (t, moved (omega arith) (omega arith) x)

    expected :
        (r : RecvStats J) (s k n : ℕ)
        → Going r s k n
        → k + 200000 < 4294967296
        → (sub32 (extended_max r) r.base_seq + 1) % 4294967296 ≡ k + 1
    unfolding extended_max
    expected r s k n v b =
        let w = v.word in let e = v.base in let f = v.far in let a = v.at in omega arith

    reported :
        (r : RecvStats J)
        → r.started ≡ true
        → ltb 0 r.probation ≡ false
        → (rep : Report) × (r' : RecvStats J) × (report smooth whole r ≡ some (rep, r'))
          × (rep.lost
              ≡ clamp 8388608 8388607
                  (sub_ℕ ((sub32 (extended_max r) r.base_seq + 1) % 4294967296) r.received))
    unfolding report
    reported r h p =
        let up : not r.started || ltb 0 r.probation ≡ false = ground arith in
        (_, _, chosen up, refl)

    report-Going :
        (r : RecvStats J) (s k n : ℕ)
        → Going r s k n
        → k + 200000 < 4294967296
        → n ≤ k + 1
        → (rep : Report) × (r' : RecvStats J) × (report smooth whole r ≡ some (rep, r'))
          × (rep.lost ≡ clamp 8388608 8388607 (ℤ.pos (k + 1 - n)))
    report-Going r s k n v b c =
        let (rep, r', e, f) = reported r v.started (ap (ltb 0) v.off) in
        let g : sub_ℕ ((sub32 (extended_max r) r.base_seq + 1) % 4294967296) r.received
            ≡ ℤ.pos (k + 1 - n) =
          ap (λ x. sub_ℕ x r.received) (expected r s k n v b)
          ∙ ap (λ x. sub_ℕ (k + 1) x) v.count
          ∙ above (k + 1) n c in
        (rep, r', e, f ∙ ap (clamp 8388608 8388607) g)

    -- The statistics after the two packets in sequence that end the probation of a new stream.
    abbrev pub opened : J → ℕ → ℕ → Arrival → Arrival → RecvStats J
    opened j clock s a b =
        (update smooth whole (update smooth whole (new j clock) s a.ts a.at_ms a.bytes).0
          ((s + 1) % 65536) b.ts b.at_ms b.bytes).0

    opened-Going :
        (j : J) (clock s : ℕ) (a b : Arrival)
        → s < 65536
        → Going (opened j clock s a b) ((s + 1) % 65536) 0 1
    unfolding update
    opened-Going j clock s a b h =
        let x = (update smooth whole (new j clock) s a.ts a.at_ms a.bytes).0 in
        let v = first_seq j clock s h in
        let w = second_seq x s v.0 (ap (λ n. ltb 0 n) v.1) (ap (λ n. n - 1 == 0) v.1) v.2 in
        record {
          started = w.started;
          off = w.off;
          at = w.at;
          word = w.word;
          base = w.base;
          far = w.far;
          count = w.count;
        }

    -- The report on a new stream counts as lost just the numbers that the packets skipped, at most
    -- 8388607: the stream is two packets in sequence, the first of which does not count, and then
    -- packets that each skip fewer than 2999 numbers, as long as all the numbers fit in 32 bits.
    pub report-lost :
        (j : J) (clock s : ℕ) (a b : Arrival) (arrivals : List Arrival)
        → s < 65536
        → Forwards arrivals
        → lost_of arrivals + length arrivals + 200001 < 4294967296
        → (rep : Report) × (r' : RecvStats J) × (report smooth whole
              (receive (opened j clock s a b) ((s + 1) % 65536) arrivals)
            ≡ some (rep, r'))
          × (rep.lost ≡ ℤ.pos (min (lost_of arrivals) 8388607))
    report-lost j clock s a b arrivals h g c =
        let (t, v) =
          receive-Going (opened j clock s a b) arrivals ((s + 1) % 65536) 0 1
            (opened-Going j clock s a b h) g (omega arith) (omega arith) in
        let (rep, r', e, f) =
          report-Going _ t (0 + (lost_of arrivals + length arrivals)) (1 + length arrivals) v
            (omega arith) (omega arith) in
        (rep, r', e, f ∙ ap (λ x. ℤ.pos (min x 8388607)) (omega arith))
