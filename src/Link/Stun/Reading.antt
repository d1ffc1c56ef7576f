-- ===== src/Link/Stun/Reading.antt =====
-- crates/oxsfud/src/link/stun.rs: the reading of attributes that were built.
use oxlens_sfu.Base.{
  ℕ, suc, ◌+◌, ◌-◌, ◌/◌, ◌%◌, ◌<◌, ◌≤◌, ◌==◌, ◌≡◌, ◌∙◌, refl, ap, true, false, not, ◌&&◌, [], ◌∷◌,
  ◌++◌, Option, some, length, take, drop, ltb, leb, from_be16, if◌then◌else◌, arith, length-append,
  take-append, drop-append, All,
}
use mathlib.Core.Path.{subst}
use mathlib.Core.List.{append_assoc}
use oxlens_sfu.Link.Tcp.{Bytes}
use oxlens_sfu.Link.Stun.{
  Found, take_attr, attrs_loop, is_some, padded, attr_message_integrity, split_once, longer,
}
use oxlens_sfu.Link.Stun.Layout.{cell, zeros, length-zeros}

module _ (lossy : Bytes → Bytes) where
  -- What a round does with an attribute, and the bytes after it.
  abbrev pub after_attr : ℕ → ℕ → ℕ → ℕ → Bytes → ℕ → Bytes → Found → Option Found
  after_attr k end i at v n rest f =
      let f' = take_attr lossy at i v f in
      if is_some f'.mi && not (at == attr_message_integrity)
      then some f'
      else attrs_loop lossy k end (i + 4 + padded n) rest f'

  -- A round of the loop, when the attribute is all there.
  attrs_loop-whole :
      (k end i a0 a1 l0 l1 : ℕ) (v : Bytes) (f : Found)
      → i + 4 ≤ end
      → from_be16 l0 l1 ≤ length v
      → attrs_loop lossy (suc k) end i (a0 ∷ a1 ∷ l0 ∷ l1 ∷ v) f ≡ (
          let n = from_be16 l0 l1 in
          after_attr k end i (from_be16 a0 a1) (take n v) n (drop (padded n) v) f)
  unfolding attrs_loop
  attrs_loop-whole k end i a0 a1 l0 l1 v f h l =
      let z : leb (i + 4) end ≡ true = ground arith in
      let y : ltb (length v) (from_be16 l0 l1) ≡ false = ground arith in rw (z, y) refl

  pub attrs_loop-cell :
      (k end i ty : ℕ) (v rest : Bytes) (f : Found)
      → ty < 65536
      → length v < 65536
      → i + 4 ≤ end
      → attrs_loop lossy (suc k) end i (cell ty v ++ rest) f
        ≡ after_attr k end i ty v (length v) rest f
  unfolding cell
  attrs_loop-cell k end i ty v rest f t l h =
      let n = length v in
      let fill = zeros (padded n - n) in
      let all = (v ++ fill) ++ rest in
      let at : from_be16 (ty / 256 % 256) (ty % 256) ≡ ty = omega arith in
      let al : from_be16 (n / 256 % 256) (n % 256) ≡ n = omega arith in
      let first : take n all ≡ v =
        ap (take n) (append_assoc v fill rest) ∙ take-append v (fill ++ rest) in
      let whole : length (v ++ fill) ≡ padded n =
        omega (arith, length-append v fill, length-zeros (padded n - n)) in
      let after : drop (padded n) all ≡ rest =
        subst (λ m. drop m all ≡ rest) whole (drop-append (v ++ fill) rest) in
      attrs_loop-whole k end i (ty / 256 % 256) (ty % 256) (n / 256 % 256) (n % 256) all f h
        (omega (arith, length-append (v ++ fill) rest))
      ∙ ap
          (λ a.
            after_attr k end i a (take (from_be16 (n / 256 % 256) (n % 256)) all)
              (from_be16 (n / 256 % 256) (n % 256))
              (drop (padded (from_be16 (n / 256 % 256) (n % 256))) all) f)
          at
      ∙ ap (λ m. after_attr k end i ty (take m all) m (drop (padded m) all) f) al
      ∙ ap (λ w. after_attr k end i ty w n (drop (padded n) all) f) first
      ∙ ap (λ r. after_attr k end i ty v n r f) after

-- The first colon divides what has none before it.
pub split_once-append :
    (a b : Bytes) → (All (λ c. (c == 58) ≡ false) a) → split_once (a ++ (58 ∷ b)) ≡ some (a, b)
unfolding split_once longer
split_once-append [] b h = refl
split_once-append (c ∷ a) b h = rw (h.0, split_once-append a b h.1) refl
