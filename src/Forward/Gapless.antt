-- ===== src/Forward/Gapless.antt =====
-- crates/oxsfud/src/fwd/core.rs: packets of one source, after packets of another.
use oxlens_sfu.Base.{
  ℕ, zero, suc, ◌<◌, ◌≡◌, refl, sym, ap, ◌∙◌, true, false, List, [], ◌∷◌, some, arith, length,
}
use mathlib.Core.Path.{subst}
use oxlens_sfu.Forward.Rewriter.{Rewriter, Last, Mapped, add16, map, turn, is_src}
use oxlens_sfu.Forward.Switch.{map-switch}

pub record Packet : Type 0 where
  pub seq : ℕ
  pub ts : ℕ
  pub at_ms : ℕ
  pub covers : ℕ

-- The numbers under which the packets of one source are forwarded.
unfoldable pub forward : Rewriter → ℕ → List Packet → List ℕ
forward r src [] = []
forward r src (p ∷ ps) =
    let (r1, m) = map r src p.seq p.ts p.at_ms p.covers in m.seq ∷ forward r1 src ps

-- The packets are numbered from `s` on.
abbrev pub Consecutive : ℕ → List Packet → Type 0
Consecutive s [] = Unit {0}
Consecutive s (p ∷ ps) = (p.seq ≡ s) × (p.ts < 4294967296) × Consecutive (add16 s 1) ps

unfoldable pub count_up : ℕ → ℕ → List ℕ
count_up a zero = []
count_up a (suc n) = a ∷ count_up (add16 a 1) n

ap2 : {a b : ℕ} {xs ys : List ℕ} → a ≡ b → xs ≡ ys → (a ∷ xs) ≡ (b ∷ ys)
ap2 p q = λ i. p i ∷ q i

itself : (n : ℕ) → is_src (some n) n ≡ true
itself n = ground arith

step : (s off t : ℕ) → add16 s off ≡ t → add16 (add16 s 1) off ≡ add16 t 1
step s off t e = omega arith

-- What the same source's packets become: the offset stays.
map-same :
    (r : Rewriter) (src seq ts at_ms covered : ℕ)
    → is_src r.src src ≡ true
    → ((map r src seq ts at_ms covered).1.seq ≡ add16 seq r.seq_off)
      × ((map r src seq ts at_ms covered).0.seq_off ≡ r.seq_off)
      × ((map r src seq ts at_ms covered).0.src ≡ r.src)
unfolding map
map-same r src seq ts at_ms covered h = rw h (refl, refl, refl)

map-other :
    (r : Rewriter) (src seq ts at_ms covered : ℕ)
    → is_src r.src src ≡ false
    → (add16 seq (map r src seq ts at_ms covered).0.seq_off
        ≡ (map r src seq ts at_ms covered).1.seq)
      × ((map r src seq ts at_ms covered).0.src ≡ some src)
unfolding map turn
map-other r src seq ts at_ms covered h = rw h (refl, refl)

forward-same :
    (r : Rewriter) (src s : ℕ) (ps : List Packet)
    → is_src r.src src ≡ true
    → Consecutive s ps
    → forward r src ps ≡ count_up (add16 s r.seq_off) (length ps)
unfolding forward count_up
forward-same r src s [] h c = refl
forward-same r src s (p ∷ ps) h (e, _, c) =
    let (a, b, d) = map-same r src p.seq p.ts p.at_ms p.covers h in
    let r1 = (map r src p.seq p.ts p.at_ms p.covers).0 in
    let rest : forward r1 src ps ≡ count_up (add16 (add16 s 1) r1.seq_off) (length ps) =
      forward-same r1 src (add16 s 1) ps (rw d h) c in
    let off : add16 (add16 s 1) r1.seq_off ≡ add16 (add16 s r.seq_off) 1 = rw b (omega arith) in
    ap2 (a ∙ ap (λ x. add16 x r.seq_off) e) (rest ∙ ap (λ x. count_up x (length ps)) off)

-- Consecutive packets of a new source, with numbers of 16 bits and timestamps of 32, are forwarded
-- under the numbers that follow that of the last packet before them, without a gap.
pub forward-gapless :
    (r : Rewriter) (l : Last) (src s : ℕ) (ps : List Packet)
    → r.last ≡ some l
    → is_src r.src src ≡ false
    → s < 65536
    → Consecutive s ps
    → forward r src ps ≡ count_up (add16 l.seq 1) (length ps)
unfolding forward count_up
forward-gapless r l src s [] e h k c = refl
forward-gapless r l src s (p ∷ ps) e h k (q, t, c) =
    let (a, d) = map-other r src p.seq p.ts p.at_ms p.covers h in
    let r1 = (map r src p.seq p.ts p.at_ms p.covers).0 in
    let at : (map r src p.seq p.ts p.at_ms p.covers).1.seq ≡ add16 l.seq 1 =
      ap Mapped.seq
        (map-switch r l src p.seq p.ts p.at_ms p.covers e h (subst (λ x. x < 65536) (sym q) k)
          t).0 in
    let rest : forward r1 src ps ≡ count_up (add16 (add16 s 1) r1.seq_off) (length ps) =
      forward-same r1 src (add16 s 1) ps (rw d (itself src)) c in
    let off : add16 (add16 s 1) r1.seq_off ≡ add16 (add16 l.seq 1) 1 =
      step s r1.seq_off (add16 l.seq 1) (ap (λ x. add16 x r1.seq_off) (sym q) ∙ a ∙ at) in
    ap2 at (rest ∙ ap (λ x. count_up x (length ps)) off)
