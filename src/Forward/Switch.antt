-- ===== src/Forward/Switch.antt =====
-- crates/oxsfud/src/fwd/core.rs: what a receiver sees across a switch of the source.
use Prim.Native.Nat.{max}
use oxlens_sfu.Base.{
  ℕ, ◌≡◌, refl, sym, if_cases, ap, ◌-◌, ◌*◌, ◌/◌, ◌%◌, ◌≤◌, ◌<◌, ◌||◌, Bool, true, false, none,
  some, arith, if◌then◌else◌,
}
use mathlib.Core.Path.{subst}
use native.Mathlib.Nat.{mul-le-mul_right}
use oxlens_sfu.Forward.Rewriter.{
  Rewriter, Last, Mapped, add16, sub16, add32, sub32, serial_after, tick, map, turn, unmap_nack,
  before_boundary, is_some, is_src, seq_off_for, ts_off_for,
}

add-sub16 : (a s : ℕ) → s < 65536 → add16 s (sub16 a s) ≡ a % 65536
add-sub16 a s h = omega arith

add-sub32 : (a s : ℕ) → s < 4294967296 → add32 s (sub32 a s) ≡ a % 4294967296
add-sub32 a s h = omega arith

sub-add16 : (s o : ℕ) → s < 65536 → o < 65536 → sub16 (add16 s o) o ≡ s
sub-add16 s o h k = omega arith

serial_after_irrefl : (a : ℕ) → a < 65536 → serial_after a a ≡ false
unfolding serial_after
serial_after_irrefl a h = ground arith

serial_after-suc : (a : ℕ) → a < 65536 → serial_after (add16 a 1) a ≡ true
unfolding serial_after
serial_after-suc a h = ground arith

-- The tick of a switch is at least one, what the last packet covers, and the time since it, as
-- long as these fit in 32 bits.
pub tick-bounds :
    (clock : ℕ) (l : Last) (at_ms : ℕ)
    → l.covers < 4294967296
    → max (at_ms - l.at_ms) 1 * clock / 1000 < 4294967296
    → (1 ≤ tick clock l at_ms)
      × (l.covers ≤ tick clock l at_ms)
      × ((at_ms - l.at_ms) * clock / 1000 ≤ tick clock l at_ms)
unfolding tick
tick-bounds clock l at_ms h k =
    let m : (at_ms - l.at_ms) * clock ≤ max (at_ms - l.at_ms) 1 * clock =
      mul-le-mul_right clock (omega arith) in
    (omega arith, omega arith, omega arith)

or_true : (b : Bool) → b || true ≡ true
or_true true = refl
or_true false = refl

switch_at :
    (r : Rewriter) (l : Last) (src seq ts at_ms covered : ℕ)
    → is_src r.src src ≡ false
    → seq < 65536
    → ts < 4294967296
    → let r' = record r { last = some l } in
      ((map r' src seq ts at_ms covered).1
        ≡ record { seq = add16 l.seq 1; ts = add32 l.ts (tick r.clock l at_ms); switched = true })
      × ((map r' src seq ts at_ms covered).0.last
          ≡ some (record {
            seq = add16 l.seq 1;
            ts = add32 l.ts (tick r.clock l at_ms);
            at_ms = at_ms;
            covers = covered;
          }))
unfolding map turn seq_off_for ts_off_for
switch_at r l src seq ts at_ms covered s h k =
    let a : add16 seq (sub16 (add16 l.seq 1) seq) ≡ add16 l.seq 1 = omega arith in
    let b : add32 ts (sub32 (add32 l.ts (tick r.clock l at_ms)) ts)
        ≡ add32 l.ts (tick r.clock l at_ms) =
      omega arith in
    rw (s, or_true (is_some r.src), a, b) (refl, refl)

-- After a packet, another source's packet, whose number fits in 16 bits and timestamp in 32, takes
-- the number after it and a timestamp later by the tick, counts as the switch, and becomes the last
-- packet.
pub map-switch :
    (r : Rewriter) (l : Last) (src seq ts at_ms covered : ℕ)
    → r.last ≡ some l
    → is_src r.src src ≡ false
    → seq < 65536
    → ts < 4294967296
    → ((map r src seq ts at_ms covered).1
        ≡ record { seq = add16 l.seq 1; ts = add32 l.ts (tick r.clock l at_ms); switched = true })
      × ((map r src seq ts at_ms covered).0.last
          ≡ some (record {
            seq = add16 l.seq 1;
            ts = add32 l.ts (tick r.clock l at_ms);
            at_ms = at_ms;
            covers = covered;
          }))
unfolding map turn seq_off_for ts_off_for
map-switch r l src seq ts at_ms covered e s h k =
    let e' : record r { last = some l } ≡ r = ap (λ x. record r { last = x }) (sym e) in
    subst
      (λ (x : Rewriter).
        ((map x src seq ts at_ms covered).1
          ≡ record { seq = add16 l.seq 1; ts = add32 l.ts (tick r.clock l at_ms); switched = true })
        × ((map x src seq ts at_ms covered).0.last
            ≡ some (record {
              seq = add16 l.seq 1;
              ts = add32 l.ts (tick r.clock l at_ms);
              at_ms = at_ms;
              covers = covered;
            })))
      e' (switch_at r l src seq ts at_ms covered s h k)

back :
    (r : Rewriter) (seq : ℕ)
    → seq < 65536
    → r.seq_off < 65536
    → before_boundary r.boundary (add16 seq r.seq_off) ≡ false
    → unmap_nack r (add16 seq r.seq_off) ≡ some seq
unfolding unmap_nack
back r seq h o b = rw (b, sub-add16 seq r.seq_off h o) refl

turn-seq_off : (r : Rewriter) (src seq ts at_ms : ℕ) → (turn r src seq ts at_ms).seq_off < 65536
unfolding turn seq_off_for
turn-seq_off r src seq ts at_ms = ground arith

-- A packet that is forwarded can be asked for again: where the offset and the packet's number fit
-- in 16 bits, its outgoing number leads back to its own, unless it is before the last switch.
pub unmap_nack-map :
    (r : Rewriter) (src seq ts at_ms covered : ℕ)
    → seq < 65536
    → r.seq_off < 65536
    → before_boundary
        (map r src seq ts at_ms covered).0.boundary
        (map r src seq ts at_ms covered).1.seq
      ≡ false
    → unmap_nack (map r src seq ts at_ms covered).0 (map r src seq ts at_ms covered).1.seq
      ≡ some seq
unfolding map turn unmap_nack seq_off_for
unmap_nack-map r src seq ts at_ms covered h o b =
    let off : (if is_src r.src src then r else turn r src seq ts at_ms).seq_off < 65536 =
      if_cases (λ (x : Rewriter). x.seq_off < 65536) (is_src r.src src) (λ _. o)
        (λ _. turn-seq_off r src seq ts at_ms) in
    back (if is_src r.src src then r else turn r src seq ts at_ms) seq h off b

map-boundary :
    (r : Rewriter) (src seq ts at_ms covered : ℕ)
    → is_src r.src src ≡ false
    → (map r src seq ts at_ms covered).0.boundary ≡ some (map r src seq ts at_ms covered).1.seq
unfolding map turn
map-boundary r src seq ts at_ms covered s = rw s refl

refuse : {b : Bool} (n : ℕ) → b ≡ true → (if b then none else some n) ≡ none
refuse n e = rw e refl

-- After a packet and the switch to another source, whose packet has a number of 16 bits and a
-- timestamp of 32, the outgoing numbers that the next one is after lead nowhere.
pub unmap_nack-switch :
    (r : Rewriter) (l : Last) (src seq ts at_ms covered out_seq : ℕ)
    → r.last ≡ some l
    → is_src r.src src ≡ false
    → seq < 65536
    → ts < 4294967296
    → serial_after (add16 l.seq 1) out_seq ≡ true
    → unmap_nack (map r src seq ts at_ms covered).0 out_seq ≡ none
unfolding unmap_nack before_boundary
unmap_nack-switch r l src seq ts at_ms covered out_seq e s h k a =
    rw
      (
        map-boundary r src seq ts at_ms covered s,
        ap Mapped.seq (map-switch r l src seq ts at_ms covered e s h k).0,
      )
      (refuse _ a)
