-- ===== src/Rtcp/Sequence.antt =====
-- crates/oxsfud/src/rtcp/core.rs: the sequence numbers of a stream that only moves forwards.
use oxlens_sfu.Base.{
  ℕ, suc, ◌+◌, ◌-◌, ◌%◌, ◌≤◌, ◌<◌, ◌==◌, ◌≡◌, refl, sym, Bool, true, false, none, some, arith, ltb,
  u32, if◌then◌else◌, ℤ, sub_ℕ,
}
use mathlib.Core.Path.{subst}
use oxlens_sfu.Rtcp.RecvStats.{
  RecvStats, init_seq, begin, on_probation, in_sequence, update_seq, new, max_dropout,
}

pub delta :
    (s g : ℕ)
    → s < 65536
    → g + 1 < max_dropout
    → ((s + (g + 1)) % 65536 + 65536 - s) % 65536 ≡ g + 1
delta s g h b = omega arith

pub above : (a b : ℕ) → b ≤ a → sub_ℕ a b ≡ ℤ.pos (a - b)
above a b h = ground arith

pub chosen : {A : Type 0} {x : A} {b : Bool} → b ≡ false → (if b then none else some x) ≡ some x
chosen e = rw e refl

pub less :
    (x s m g : ℕ)
    → (x + 65536 - s) % 65536 ≡ g + 1
    → g + 1 < max_dropout
    → m ≡ s
    → ltb ((x + 65536 - m) % 65536) max_dropout ≡ true
less x s m g e h q = ground arith

module _ {J : Type 0} where
  -- A stream off probation, at number `s`, that is `k` numbers after its base and has received
  -- `n` packets.
  pub record Going (r : RecvStats J) (s k n : ℕ) : Type 0 where
    pub started : r.started ≡ true
    pub off : r.probation ≡ 0
    pub at : r.max_seq ≡ s
    pub word : s < 65536
    pub base : r.base_seq < 65536
    pub far : r.cycles + s ≡ r.base_seq + k
    pub count : r.received ≡ n

  started_begin : (r : RecvStats J) (seq : ℕ) → r.started ≡ true → begin r seq ≡ r
  unfolding begin
  started_begin r seq h = rw h refl

  -- The statistics after a jump forwards.
  pub jumped : RecvStats J → ℕ → RecvStats J
  jumped r seq = record r {
    cycles = (if ltb seq r.max_seq then u32 (r.cycles + 65536) else r.cycles);
    max_seq = seq;
    received = u32 (suc r.received);
  }

  in_sequence-jumped :
      (r : RecvStats J) (seq : ℕ)
      → ltb ((seq + 65536 - r.max_seq) % 65536) max_dropout ≡ true
      → (in_sequence r seq).0 ≡ jumped r seq
  unfolding in_sequence jumped
  in_sequence-jumped r seq h = rw h refl

  pub update_seq-jumped :
      (r : RecvStats J) (seq : ℕ)
      → r.started ≡ true
      → ltb 0 r.probation ≡ false
      → ltb ((seq + 65536 - r.max_seq) % 65536) max_dropout ≡ true
      → (update_seq r seq).0 ≡ jumped r seq
  unfolding update_seq
  update_seq-jumped r seq h p d = rw (started_begin r seq h, p) (in_sequence-jumped r seq d)

  pub jumped-Going :
      (r : RecvStats J) (s k n g : ℕ)
      → Going r s k n
      → g + 1 < max_dropout
      → k + g + 200000 < 4294967296
      → n + 1 < 4294967296
      → Going (jumped r ((s + (g + 1)) % 65536)) ((s + (g + 1)) % 65536) (k + (g + 1)) (n + 1)
  unfolding jumped
  jumped-Going r s k n g v h b c =
      let w = v.word in
      let e = v.base in
      let f = v.far in
      let a = v.at in
      let q = v.count in
      record {
        started = v.started;
        off = v.off;
        at = refl;
        word = omega arith;
        base = v.base;
        far = ground arith;
        count = omega arith;
      }

  -- The first packet of a stream.
  pub first_seq :
      (j : J) (clock s : ℕ)
      → s < 65536
      → let r = (update_seq (new j clock) s).0 in
        (r.started ≡ true) × (r.probation ≡ 1) × (r.max_seq ≡ s)
  unfolding update_seq begin on_probation init_seq new
  first_seq j clock s h =
      let hit : (s == ((s + 65535) % 65536 + 1) % 65536) ≡ true = ground arith in
      rw hit (refl, refl, refl)

  admitted : RecvStats J → ℕ → RecvStats J
  unfolding init_seq
  admitted r seq = record (init_seq (record r { probation = 0; max_seq = seq }) seq) {
    received = 1;
  }

  on_probation-admitted :
      (r : RecvStats J) (seq : ℕ)
      → (seq == (r.max_seq + 1) % 65536) ≡ true
      → (r.probation - 1 == 0) ≡ true
      → (on_probation r seq).0 ≡ admitted r seq
  unfolding on_probation admitted
  on_probation-admitted r seq h p = rw (h, p) refl

  update_seq-admitted :
      (r : RecvStats J) (seq : ℕ)
      → r.started ≡ true
      → ltb 0 r.probation ≡ true
      → (r.probation - 1 == 0) ≡ true
      → (seq == (r.max_seq + 1) % 65536) ≡ true
      → (update_seq r seq).0 ≡ admitted r seq
  unfolding update_seq
  update_seq-admitted r seq s p q h =
      rw (started_begin r seq s, p) (on_probation-admitted r seq h q)

  admitted-Going :
      (r : RecvStats J) (seq : ℕ) → r.started ≡ true → seq < 65536 → Going (admitted r seq) seq 0 1
  unfolding admitted init_seq
  admitted-Going r seq h w = record {
    started = h;
    off = refl;
    at = refl;
    word = w;
    base = w;
    far = omega arith;
    count = refl;
  }

  pub second_seq :
      (r : RecvStats J) (s : ℕ)
      → r.started ≡ true
      → ltb 0 r.probation ≡ true
      → (r.probation - 1 == 0) ≡ true
      → r.max_seq ≡ s
      → Going (update_seq r ((s + 1) % 65536)).0 ((s + 1) % 65536) 0 1
  second_seq r s t p q m =
      let seq = (s + 1) % 65536 in
      let hit : (seq == (r.max_seq + 1) % 65536) ≡ true = ground arith in
      subst (λ (x : RecvStats J). Going x seq 0 1) (sym (update_seq-admitted r seq t p q hit))
        (admitted-Going r seq t (omega arith))
