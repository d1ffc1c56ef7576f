-- ===== src/Link/Stun/Attributes.antt =====
-- crates/oxsfud/src/link/stun.rs: what the loop finds in a list of attributes, the integrity after
-- them, and an attribute after that.
use oxlens_sfu.Base.{
  ℕ, zero, suc, ◌+◌, ◌-◌, ◌<◌, ◌≤◌, ◌==◌, ◌≡◌, ◌∙◌, refl, ap, Bool, true, false, List, [], ◌∷◌,
  ◌++◌, Option, none, some, length, if◌then◌else◌, arith, length-append, All,
}
use mathlib.Core.List.{append_assoc}
use oxlens_sfu.Link.Tcp.{Bytes}
use oxlens_sfu.Link.Stun.{
  Found, take_attr, attrs_loop, padded, attr_username, attr_message_integrity, attr_use_candidate,
  found_nothing,
}
use oxlens_sfu.Link.Stun.Layout.{cell, length-cell}
use oxlens_sfu.Link.Stun.Reading.{attrs_loop-cell, after_attr}

-- An attribute that fits, and is not the integrity.
abbrev pub IsPlain : ℕ × Bytes → Type 0
IsPlain a = (a.0 < 65536) × ((a.0 == attr_message_integrity) ≡ false) × (length a.1 < 65536)

unfoldable pub cells : List (ℕ × Bytes) → Bytes
cells [] = []
cells ((ty, v) ∷ as') = cell ty v ++ cells as'

abbrev pub found : Option Bytes → Option (ℕ × Bytes) → Bool → Found
found u m c = record { username = u; mi = m; use_candidate = c }

module _ (lossy : Bytes → Bytes) where
  -- The user name after an attribute, and whether the candidate is to be used.
  abbrev pub name_after : ℕ × Bytes → Option Bytes → Option Bytes
  name_after a u = if a.0 == attr_username then some (lossy a.1) else u

  abbrev pub candidate_after : ℕ × Bytes → Bool → Bool
  candidate_after a c = if a.0 == attr_use_candidate then true else c

  unfoldable pub named : List (ℕ × Bytes) → Option Bytes → Option Bytes
  named [] u = u
  named (a ∷ as') u = named as' (name_after a u)

  unfoldable pub candidate : List (ℕ × Bytes) → Bool → Bool
  candidate [] c = c
  candidate (a ∷ as') c = candidate as' (candidate_after a c)

  take_attr-plain :
      (ty i : ℕ) (v : Bytes) (u : Option Bytes) (c : Bool)
      → (ty == attr_message_integrity) ≡ false
      → take_attr lossy ty i v (found u none c)
        ≡ found (name_after (ty, v) u) none (candidate_after (ty, v) c)
  unfolding take_attr
  take_attr-plain ty i v u c h = ground arith

  take_attr-after :
      (ty i : ℕ) (v : Bytes) (u : Option Bytes) (m : ℕ × Bytes) (c : Bool)
      → (ty == attr_message_integrity) ≡ false
      → take_attr lossy ty i v (found u (some m) c) ≡ found (name_after (ty, v) u) (some m) c
  unfolding take_attr
  take_attr-after ty i v u m c h = ground arith

  attrs_loop-cells :
      (as' : List (ℕ × Bytes)) (m k end i : ℕ) (tail : Bytes) (u : Option Bytes) (c : Bool)
      → All IsPlain as'
      → m ≡ length as' + k
      → i + length (cells as') ≤ end
      → attrs_loop lossy m end i (cells as' ++ tail) (found u none c)
        ≡ attrs_loop lossy k end
            (i + length (cells as'))
            tail
            (found (named as' u) none (candidate as' c))
  unfolding cells named candidate
  attrs_loop-cells [] m k end i tail u c h e l =
      let e' : m ≡ k = omega arith in let j : i + 0 ≡ i = omega arith in rw (e', j) refl
  attrs_loop-cells (a ∷ as') zero k end i tail u c h e l = absurd (omega arith)
  attrs_loop-cells ((ty, v) ∷ as') (suc m) k end i tail u c h e l =
      let n = length-append (cell ty v) (cells as') in
      let w = length-cell ty v in
      let f = found u none c in
      let end' = i + 4 + padded (length v) in
      let f' = found (name_after (ty, v) u) none (candidate_after (ty, v) c) in
      let rest =
        attrs_loop-cells as' m k end end' tail (name_after (ty, v) u) (candidate_after (ty, v) c)
          h.1 (omega arith) (omega arith) in
      let next : after_attr lossy m end i ty v (length v) (cells as' ++ tail) f
          ≡ attrs_loop lossy m end end' (cells as' ++ tail) f' =
        rw (take_attr-plain ty i v u c h.0.1) refl in
      ap (λ s. attrs_loop lossy (suc m) end i s f) (append_assoc (cell ty v) (cells as') tail)
      ∙ attrs_loop-cell lossy m end i ty v (cells as' ++ tail) f h.0.0 h.0.2 (omega arith)
      ∙ next
      ∙ rest
      ∙ ap
          (λ j. attrs_loop lossy k end j tail (
            found (named as' (name_after (ty, v) u)) none
              (candidate as' (candidate_after (ty, v) c))))
          (omega arith)

  take_attr-mac :
      (i : ℕ) (mac : Bytes) (u : Option Bytes) (c : Bool)
      → length mac ≡ 20
      → take_attr lossy attr_message_integrity i mac (found u none c) ≡ found u (some (i, mac)) c
  unfolding take_attr
  take_attr-mac i mac u c h = let e : (length mac == 20) ≡ true = ground arith in rw e refl

  -- The attributes, the integrity, and the attribute after it, which ends the loop.
  pub attrs_loop-signed :
      (as' : List (ℕ × Bytes)) (b : ℕ × Bytes) (mac tail : Bytes) (m end : ℕ)
      → All IsPlain as'
      → IsPlain b
      → length mac ≡ 20
      → length as' + 2 ≤ m
      → 20 + length (cells as') + 28 ≤ end
      → attrs_loop lossy m end 20
          (cells as' ++ (cell attr_message_integrity mac ++ (cell b.0 b.1 ++ tail)))
          found_nothing
        ≡ some (
            found
              (name_after b (named as' none))
              (some (20 + length (cells as'), mac))
              (candidate as' false))
  attrs_loop-signed as' b mac tail m end h p l e j =
      let i = 20 + length (cells as') in
      let k = m - (length as' + 2) in
      let u = named as' none in
      let c = candidate as' false in
      let f1 = found u none c in
      let f2 = found u (some (i, mac)) c in
      let f3 = found (name_after b u) (some (i, mac)) c in
      let i' = i + 4 + padded (length mac) in
      let at : after_attr lossy (suc k) end i attr_message_integrity mac (length mac)
            (cell b.0 b.1 ++ tail) f1
          ≡ attrs_loop lossy (suc k) end i' (cell b.0 b.1 ++ tail) f2 =
        rw (take_attr-mac i mac u c l) refl in
      let last : after_attr lossy k end i' b.0 b.1 (length b.1) tail f2 ≡ some f3 =
        rw (take_attr-after b.0 i' b.1 u (i, mac) c p.1, p.1) refl in
      attrs_loop-cells as' m (suc (suc k)) end 20
        (cell attr_message_integrity mac ++ (cell b.0 b.1 ++ tail)) none false h (omega arith)
        (omega arith)
      ∙ attrs_loop-cell lossy (suc k) end i attr_message_integrity mac (cell b.0 b.1 ++ tail) f1
          (omega arith) (omega arith) (omega arith)
      ∙ at
      ∙ attrs_loop-cell lossy k end i' b.0 b.1 tail f2 p.0 p.2 (omega arith)
      ∙ last
