-- ===== src/Link/Tcp/Stream.antt =====
-- crates/oxsfud/src/link/tcp.rs: the frames of a stream of bytes, however it is cut into chunks.
use oxlens_sfu.Base.{
  ℕ, zero, suc, ◌+◌, ◌≤◌, ◌==◌, ◌≡◌, ◌∙◌, refl, sym, ap, true, false, List, [], ◌∷◌, ◌++◌, Option,
  none, some, length, take, drop, ltb, from_be16, if◌then◌else◌, arith, length-append, Bool-cases,
  inl, inr,
}
use mathlib.Core.Path.{subst}
use mathlib.Core.List.{append_assoc, append-nil}
use oxlens_sfu.Link.Tcp.{
  Bytes, Deframer, push, next_loop, next_frame, frames_on, frames_loop, read_all,
}
use oxlens_sfu.Link.Tcp.Rounds.{
  split, drop_shorter, split_fuel, after, split-next_loop, Taken, next_loop-Taken,
}

-- The frames, with as many rounds as are needed, and some frames before them.
drop_within : (n : ℕ) (r c : Bytes) → n ≤ length r → drop n (r ++ c) ≡ drop n r ++ c
drop_within zero r c h = refl
drop_within (suc n) [] c h = absurd (omega arith)
drop_within (suc n) (x ∷ r) c h = drop_within n r c (omega arith)

take_within : (n : ℕ) (r c : Bytes) → n ≤ length r → take n (r ++ c) ≡ take n r
take_within zero r c h = refl
take_within (suc n) [] c h = absurd (omega arith)
take_within (suc n) (x ∷ r) c h = ap (λ l. x ∷ l) (take_within n r c (omega arith))

pub splits : Bytes → Bytes × List Bytes
splits b = split (length b) b

abbrev pub behind : List Bytes → Bytes × List Bytes → Bytes × List Bytes
behind fs (b, gs) = (b, fs ++ gs)

abbrev pub joined : List Bytes → Bytes
joined [] = []
joined (c ∷ cs) = c ++ joined cs

unfoldable pub one : ℕ → Bytes → List Bytes
one n r = if n == 0 then [] else take n r ∷ []

one_within : (n : ℕ) (r c : Bytes) → n ≤ length r → one n (r ++ c) ≡ one n r
unfolding one
one_within n r c h = rw (take_within n r c h) refl

one-append :
    (n : ℕ) (r : Bytes) (gs : List Bytes) → (if n == 0 then gs else take n r ∷ gs) ≡ one n r ++ gs
unfolding one
one-append zero r gs = refl
one-append (suc n) r gs = let z : (suc n == 0) ≡ false = ground arith in rw z refl

splits-whole :
    (x y : ℕ) (r : Bytes)
    → ltb (length r) (from_be16 x y) ≡ false
    → splits (x ∷ y ∷ r) ≡ behind (one (from_be16 x y) r) (splits (drop (from_be16 x y) r))
unfolding splits split
splits-whole x y r e =
    let s = drop_shorter (from_be16 x y) r in
    let fuel =
      split_fuel (suc (length r)) (length (drop (from_be16 x y) r)) (drop (from_be16 x y) r)
        (omega arith) (omega arith) in
    rw (e, fuel, one-append) refl

pub splits_of_length :
    (x y n : ℕ) (r : Bytes)
    → from_be16 x y ≡ n
    → n ≤ length r
    → splits (x ∷ y ∷ r) ≡ behind (one n r) (splits (drop n r))
splits_of_length x y n r e h =
    subst (λ m. splits (x ∷ y ∷ r) ≡ behind (one m r) (splits (drop m r))) e
      (splits-whole x y r (ground arith))

splits-part :
    (x y : ℕ) (r : Bytes)
    → ltb (length r) (from_be16 x y) ≡ true
    → splits (x ∷ y ∷ r) ≡ (x ∷ y ∷ r, [])
unfolding splits split
splits-part x y r e = rw e refl

-- The frames of the bytes so far, and then those of the rest of them with the bytes that follow.
splits-append :
    (k : ℕ) (b c : Bytes)
    → length b ≤ k
    → splits (b ++ c) ≡ behind (splits b).1 (splits ((splits b).0 ++ c))
splits-append k [] c h = unfold splits split in refl
splits-append k (x ∷ []) c h = unfold splits split in refl
splits-append zero (x ∷ y ∷ r) c h = absurd (omega arith)
splits-append (suc k) (x ∷ y ∷ r) c h =
    let n = from_be16 x y in
    elim (Bool-cases (ltb (length r) (from_be16 x y))) [
      | inl e ↦ rw (splits-part x y r e) refl
      | inr e ↦
          let j : ltb (length (r ++ c)) (from_be16 x y) ≡ false =
            ground (arith, length-append r c) in
          let s = drop_shorter (from_be16 x y) r in
          rw (splits-whole x y r e, splits-whole x y (r ++ c) j)
            (rw
              (
                drop_within (from_be16 x y) r c (ground arith),
                one_within (from_be16 x y) r c (ground arith),
                splits-append k (drop (from_be16 x y) r) c (omega arith),
              )
              (simp append_assoc))
    ]

-- A deframer that holds the rest, with the frames.
abbrev pub held : Bytes × List Bytes → Deframer × List Bytes
held (b, fs) = (record { buf = b }, fs)

frames_on-after :
    (k m : ℕ) (b : Bytes) (p : Bytes × Option Bytes)
    → ((d : Deframer) → length d.buf ≤ k → frames_loop k d ≡ held (splits d.buf))
    → Taken b p
    → length b ≤ suc k
    → length b ≤ m
    → frames_on (frames_loop k) (record { buf = p.0 }, p.1) ≡ held (after (split m) p)
unfolding frames_on Taken after
frames_on-after k m b (c, none) ih t h j = refl
frames_on-after k m b (c, some f) ih t h j =
    let e = split_fuel m (length c) c (omega arith) (omega arith) in
    rw (ih (record { buf = c }) (omega arith), e) (unfold splits in refl)

pub splits_empty : (b : Bytes) → length b ≤ 0 → splits b ≡ (b, [])
unfolding splits split
splits_empty [] h = refl
splits_empty (x ∷ b) h = absurd (omega arith)

frames_loop-splits :
    (k : ℕ) (d : Deframer) → length d.buf ≤ k → frames_loop k d ≡ held (splits d.buf)
unfolding frames_loop next_frame
frames_loop-splits zero d h = rw (splits_empty d.buf h) refl
frames_loop-splits (suc k) d h =
    let n = length d.buf in
    frames_on-after k n d.buf (next_loop n d.buf) (λ e. frames_loop-splits k e)
      (next_loop-Taken n d.buf) h (omega arith)
    ∙ ap held (sym (split-next_loop n n d.buf (omega arith) (omega arith)) ∙ unfold splits in refl)

-- What is left has no whole frame at its front.
splits_rest : (k : ℕ) (b : Bytes) → length b ≤ k → splits (splits b).0 ≡ ((splits b).0, [])
splits_rest k [] h = unfold splits split in refl
splits_rest k (x ∷ []) h = unfold splits split in refl
splits_rest zero (x ∷ y ∷ r) h = absurd (omega arith)
splits_rest (suc k) (x ∷ y ∷ r) h = elim (Bool-cases (ltb (length r) (from_be16 x y))) [
  | inl e ↦ rw (splits-part x y r e, splits-part x y r e) refl
  | inr e ↦
      let s = drop_shorter (from_be16 x y) r in
      rw (splits-whole x y r e) (splits_rest k (drop (from_be16 x y) r) (omega arith))
]

-- The chunks do not matter, only the bytes that they are together.
pub read_all-splits :
    (b : Bytes) (cs : List Bytes)
    → splits b ≡ (b, [])
    → read_all (record { buf = b }) cs ≡ held (splits (b ++ joined cs))
unfolding read_all push
read_all-splits b [] h = rw (append-nil, h) refl
read_all-splits b (c ∷ cs) h =
    let whole =
      frames_loop-splits (length b + length c) (record { buf = b ++ c })
        (omega (arith, length-append b c)) in
    let rest =
      read_all-splits (splits (b ++ c)).0 cs
        (splits_rest (length (b ++ c)) (b ++ c) (omega arith)) in
    let all = splits-append (length (b ++ c)) (b ++ c) (joined cs) (omega arith) in
    rw (whole, rest, ← append_assoc, all) refl
