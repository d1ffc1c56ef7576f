-- ===== src/Rtcp/Twcc/Reading.antt =====
-- crates/oxsfud/src/rtcp/core.rs: what a feedback tells, read as the sender reads it.
use oxlens_sfu.Base.{
  ℕ, suc, zero, ◌+◌, ◌%◌, ◌≤◌, ◌==◌, ◌≡◌, refl, true, false, ◌⊎◌, ◌&&◌, List, [], ◌∷◌, none, some,
  length, arith, ℤ, ◌+ℤ◌, ◌-ℤ◌, ◌≤ℤ◌, scale, div_euclid, wrap, leb_ℤ, +ℤ_parts, -ℤ_parts,
  Bool-cases, if_cases, Option-cases, inl, inr,
}
use mathlib.Core.Path.{subst}
use oxlens_sfu.Rtcp.Twcc.{
  Feedback, TwccRecv, Arrivals, sym_none, sym_small, sym_large, get, delta, in_range, size_symbol,
  status_loop, trim, is_nil, feedback, build_from, build_window, build, first_from, last_key,
}

-- A time is told to the nearest 250 us.
abbrev pub IsClose : ℤ → ℤ → Type 0
IsClose x t = (x ≤ℤ t +ℤ ℤ.pos 125) × (t ≤ℤ x +ℤ ℤ.pos 125)

-- The symbol of a packet that came is the size of its delta: one byte, or two with a sign.
pub data Sized : ℕ → ℤ → Type 0 where
  small : {d : ℤ} → ℤ.pos 0 ≤ℤ d → d ≤ℤ ℤ.pos 255 → Sized sym_small d
  large :
      {d : ℤ}
      → (d ≤ℤ ℤ.negsuc 0) ⊎ (ℤ.pos 256 ≤ℤ d)
      → ℤ.negsuc 32767 ≤ℤ d
      → d ≤ℤ ℤ.pos 32767
      → Sized sym_large d

-- The symbols and the deltas, from a number and a time on, tell of each packet whether it came and
-- when: there is a delta, of the size that the symbol says, for each packet that came, and no other.
pub data Describes (m : Arrivals) : ℤ → ℤ → List ℕ → List ℤ → Type 0 where
  over : {s last : ℤ} → Describes m s last [] []
  silent :
      {s last : ℤ} {xs : List ℕ} {ds : List ℤ}
      → get s m ≡ none
      → Describes m (s +ℤ ℤ.pos 1) last xs ds
      → Describes m s last (sym_none ∷ xs) ds
  heard :
      {s last t d : ℤ} {x : ℕ} {xs : List ℕ} {ds : List ℤ}
      → get s m ≡ some t
      → IsClose (last +ℤ scale 250 d) t
      → Sized x d
      → Describes m (s +ℤ ℤ.pos 1) (last +ℤ scale 250 d) xs ds
      → Describes m s last (x ∷ xs) (d ∷ ds)

div_euclid_bounds :
    (a : ℤ) → (scale 250 (div_euclid a 250) ≤ℤ a) × (a ≤ℤ scale 250 (div_euclid a 250) +ℤ ℤ.pos 249)
unfolding scale div_euclid ◌+ℤ◌
div_euclid_bounds (ℤ.pos n) = (ground arith, ground arith)
div_euclid_bounds (ℤ.negsuc n) = (ground arith, ground arith)

delta-IsClose : (t last : ℤ) → IsClose (last +ℤ scale 250 (delta t last)) t
unfolding delta
delta-IsClose t last =
    let a = t -ℤ last +ℤ ℤ.pos 125 in
    let q = scale 250 (div_euclid a 250) in
    let b = div_euclid_bounds a in
    (omega (arith, +ℤ_parts, -ℤ_parts), omega (arith, +ℤ_parts, -ℤ_parts))

size_symbol-Sized : (d : ℤ) → in_range d ≡ true → Sized (size_symbol d) d
unfolding size_symbol in_range
size_symbol-Sized d h =
    if_cases (λ x. Sized x d) (leb_ℤ (ℤ.pos 0) d && leb_ℤ d (ℤ.pos 255))
      (λ c. Sized.small (ground arith) (ground arith))
      (λ c.
        Sized.large
          (elim (Bool-cases (leb_ℤ (ℤ.pos 0) d)) [
            | inl z ↦ inr (ground arith)
            | inr z ↦ inl (ground arith)
          ])
          (ground arith) (ground arith))

status_loop-Describes :
    (m : Arrivals) (max_seq : ℤ) (n : ℕ) (s last : ℤ)
    → (let p = status_loop m max_seq n s last in Describes m s last p.0 p.1)
unfolding status_loop
status_loop-Describes m max_seq zero s last = Describes.over
status_loop-Describes m max_seq (suc n) s last = elim (Bool-cases (leb_ℤ s max_seq)) [
  | inr z ↦ rw z Describes.over
  | inl z ↦ elim (Option-cases (get s m)) [
    | inl y ↦ rw (z, y) (Describes.silent y (status_loop-Describes m max_seq n (s +ℤ ℤ.pos 1) last))
    | inr (t, y) ↦
        let d = delta t last in
        elim (Bool-cases (in_range d)) [
          | inr x ↦ rw (z, y, x) Describes.over
          | inl x ↦
              rw (z, y, x)
                (Describes.heard y (delta-IsClose t last) (size_symbol-Sized d x)
                  (status_loop-Describes m max_seq n (s +ℤ ℤ.pos 1) (last +ℤ scale 250 d)))
        ]
  ]
]

-- Without symbols there are no deltas, from any number on.
no_deltas :
    (m : Arrivals) (s s' last : ℤ) (xs : List ℕ) (ds : List ℤ)
    → is_nil xs ≡ true
    → Describes m s last xs ds
    → Describes m s' last [] ds
no_deltas m s s' last [] [] e h = Describes.over
no_deltas m s s' last [] (d ∷ ds) e h = elim h [ ]
no_deltas m s s' last (x ∷ xs) ds e h = cc

Sized-heard : {x : ℕ} {d : ℤ} → Sized x d → (x == sym_none) ≡ false
Sized-heard (Sized.small a b) = refl
Sized-heard (Sized.large a b c) = refl

trim-Describes :
    (m : Arrivals) (s last : ℤ) (xs : List ℕ) (ds : List ℤ)
    → Describes m s last xs ds
    → Describes m s last (trim xs) ds
unfolding trim
trim-Describes m s last xs ds Describes.over = Describes.over
trim-Describes m s last xs ds (Describes.silent {xs = ys} e h) =
    let r = trim-Describes m (s +ℤ ℤ.pos 1) last ys ds h in
    if_cases (λ l. Describes m s last l ds) (is_nil (trim ys) && sym_none == sym_none)
      (λ c. no_deltas m (s +ℤ ℤ.pos 1) s last (trim ys) ds (ground arith) r)
      (λ _. Describes.silent e r)
trim-Describes m s last xs ds (Describes.heard {d = d} {x = x} {xs = ys} {ds = es} e c z h) =
    let r = trim-Describes m (s +ℤ ℤ.pos 1) (last +ℤ scale 250 d) ys es h in
    rw (Sized-heard z) (
      if_cases (λ l. Describes m s last l (d ∷ es)) (is_nil (trim ys) && false)
        (λ k. absurd (ground arith)) (λ _. Describes.heard e c z r))

length-trim : (xs : List ℕ) → length (trim xs) ≤ length xs
unfolding trim
length-trim [] = omega arith
length-trim (x ∷ xs) = ground (arith, length-trim xs)

length-status_loop :
    (m : Arrivals) (max_seq : ℤ) (n : ℕ) (s last : ℤ)
    → length (status_loop m max_seq n s last).0 ≤ n
unfolding status_loop
length-status_loop m max_seq zero s last = omega arith
length-status_loop m max_seq (suc n) s last = elim (Bool-cases (leb_ℤ s max_seq)) [
  | inr z ↦ rw z (omega arith)
  | inl z ↦ elim (Option-cases (get s m)) [
    | inl y ↦ rw (z, y) (omega (arith, length-status_loop m max_seq n (s +ℤ ℤ.pos 1) last))
    | inr (t, y) ↦
        let d = delta t last in
        elim (Bool-cases (in_range d)) [
          | inr x ↦ rw (z, y, x) (omega arith)
          | inl x ↦
              rw (z, y, x)
                (omega (arith, length-status_loop m max_seq n (s +ℤ ℤ.pos 1) (last +ℤ scale 250 d)))
        ]
  ]
]

-- What is known of a feedback on a window that starts at `w`, and of the state after it.
abbrev pub Tells : TwccRecv → ℤ → ℤ → Feedback × TwccRecv → Type 0
Tells r w reference_time p =
    (p.0.base_seq ≡ wrap 65536 w)
    × (p.0.reference_time ≡ wrap 16777216 reference_time)
    × (p.0.status_count ≡ length p.0.symbols)
    × (p.1.window_start ≡ some (w +ℤ ℤ.pos (length p.0.symbols)))
    × Describes r.arrivals w (scale 64000 reference_time) p.0.symbols p.0.deltas_250us

feedback-Tells :
    (r : TwccRecv) (w reference_time max_seq : ℤ) (p : Feedback × TwccRecv)
    → feedback r w reference_time
        (status_loop r.arrivals max_seq 65535 w (scale 64000 reference_time))
      ≡ some p
    → Tells r w reference_time p
unfolding feedback
feedback-Tells r w reference_time max_seq p h =
    let all = status_loop r.arrivals max_seq 65535 w (scale 64000 reference_time) in
    let symbols = trim all.0 in
    let n = length-status_loop r.arrivals max_seq 65535 w (scale 64000 reference_time) in
    let k = length-trim all.0 in
    elim (Bool-cases (is_nil symbols)) [
      | inl z ↦ cc (rw z at h)
      | inr z ↦
          let told : Feedback × TwccRecv = (
            record {
              base_seq = wrap 65536 w;
              status_count = length symbols % 65536;
              reference_time = wrap 16777216 reference_time;
              fb_count = r.fb_count;
              symbols = symbols;
              deltas_250us = all.1;
            },
            record r {
              fb_count = (r.fb_count + 1) % 256;
              window_start = some (w +ℤ ℤ.pos (length symbols));
            },
          ) in
          let same : told ≡ p = cc (rw z at h) in
          subst (Tells r w reference_time) same (
            refl,
            refl,
            omega arith,
            refl,
            trim-Describes r.arrivals w (scale 64000 reference_time) all.0 all.1
                (status_loop-Describes r.arrivals max_seq 65535 w (scale 64000 reference_time)),
          )
    ]

-- A feedback is on the packets from the start of the window on, in the number that it says. Each
-- symbol is that of a packet that did not come, or the size of the delta of one that did, and the
-- deltas are those of the packets that came, one for each and no other: they add up, from the
-- reference time on, to the times at which the packets came, to the nearest 250 us. The reference
-- time is told modulo its 24 bits. The window starts after these packets from there on.
pub build-Tells :
    (r : TwccRecv) (p : Feedback × TwccRecv)
    → build r ≡ some p
    → (w : ℤ) × (reference_time : ℤ) × (r.window_start ≡ some w) × Tells r w reference_time p
unfolding build build_window build_from
build-Tells r p h = elim (Option-cases r.window_start) [
  | inl z ↦ cc (simp z at h)
  | inr (w, z) ↦ elim (Option-cases (first_from w r.arrivals)) [
    | inl y ↦ cc (simp (z, y) at h)
    | inr ((k, t), y) ↦ (
      w,
      div_euclid t 64000,
      z,
      feedback-Tells r w (div_euclid t 64000) (last_key k r.arrivals) p (simp (z, y) at h),
    )
  ]
]
