-- ===== src/Link/Stun/Authentic.antt =====
-- crates/oxsfud/src/link/stun.rs: what is known of a message that is accepted.
use oxlens_sfu.Base.{
  ℕ, zero, suc, ◌+◌, ◌≤◌, ◌==◌, ◌≡◌, ◌⊎◌, ◌∙◌, refl, sym, ap, true, not, ◌&&◌, [], ◌∷◌, Option,
  none, some, length, take, drop, ltb, leb, from_be16, bit_or, arith, length-take, xor-zero,
  or-zero, Bool-cases, Option-cases, if_cases, inl, inr,
}
use Prim.Native.Nat.{bit_xor}
use mathlib.Core.Path.{subst}
use oxlens_sfu.Link.Tcp.{Bytes}
use oxlens_sfu.Link.Stun.{
  Found, Binding, Result, StunError, attrs_loop, take_attr, attr_username, attr_message_integrity,
  attr_use_candidate, is_some, padded, found_nothing, is_stun, parse_stun, parse, bind_found,
  split_once, signed, differ, verify, check, binding_request,
}

drop-drop : (n m : ℕ) (b : Bytes) → drop m (drop n b) ≡ drop (n + m) b
drop-drop zero m b = let e : 0 + m ≡ m = omega arith in rw e refl
drop-drop (suc n) zero [] = let e : suc n + 0 ≡ suc n = omega arith in rw e refl
drop-drop (suc n) (suc m) [] = let e : suc n + suc m ≡ suc (n + suc m) = omega arith in rw e refl
drop-drop (suc n) m (x ∷ b) =
    let e : suc n + m ≡ suc (n + m) = omega arith in rw e (drop-drop n m b)

-- The integrity that was found is the 20 bytes of its attribute.
abbrev HasMac : Bytes → Option (ℕ × Bytes) → Type 0
HasMac raw none = Unit {0}
HasMac raw (some (i, mac)) = (length mac ≡ 20) × (take 20 (drop (i + 4) raw) ≡ mac)

module _ (lossy : Bytes → Bytes) (raw : Bytes) where
  abbrev Good : Found → Type 0
  Good g = HasMac raw g.mi

  mac_of_attr :
      (at al i : ℕ) (v : Bytes) (f : Found)
      → v ≡ drop (i + 4) raw
      → al ≤ length v
      → HasMac raw f.mi
      → HasMac raw (take_attr lossy at i (take al v) f).mi
  unfolding take_attr
  mac_of_attr at al i v f e l h =
      let n = length-take al v l in
      if_cases Good (at == attr_username) (λ _. h)
        (λ _.
          if_cases Good (at == attr_message_integrity && length (take al v) == 20)
            (λ y. let twenty : al ≡ 20 = ground arith in (omega arith, rw (← e, twenty) refl))
            (λ _. if_cases Good (at == attr_use_candidate && not (is_some f.mi)) (λ _. h) (λ _. h)))

  found_same : (f g : Found) → HasMac raw f.mi → some f ≡ some g → HasMac raw g.mi
  found_same f g h e = let d : f ≡ g = cc in subst (λ f. HasMac raw f.mi) d h

  attrs_loop-HasMac :
      (k end i : ℕ) (s : Bytes) (f g : Found)
      → s ≡ drop i raw
      → HasMac raw f.mi
      → attrs_loop lossy k end i s f ≡ some g
      → HasMac raw g.mi
  unfolding attrs_loop
  attrs_loop-HasMac zero end i s f g e h r = found_same f g h r
  attrs_loop-HasMac (suc k) end i [] f g e h r = found_same f g h r
  attrs_loop-HasMac (suc k) end i (a ∷ []) f g e h r = found_same f g h r
  attrs_loop-HasMac (suc k) end i (a ∷ b ∷ []) f g e h r = found_same f g h r
  attrs_loop-HasMac (suc k) end i (a ∷ b ∷ c ∷ []) f g e h r = found_same f g h r
  attrs_loop-HasMac (suc k) end i (a0 ∷ a1 ∷ l0 ∷ l1 ∷ v) f g e h r =
      let at = from_be16 a0 a1 in
      let al = from_be16 l0 l1 in
      let f' = take_attr lossy at i (take al v) f in
      let here : v ≡ drop (i + 4) raw = ap (drop 4) e ∙ drop-drop i 4 raw in
      let next : drop (padded al) v ≡ drop (i + 4 + padded al) raw =
        ap (drop (padded al)) here ∙ drop-drop (i + 4) (padded al) raw in
      elim (Bool-cases (leb (i + 4) end)) [
        | inr z ↦ found_same f g h (rw z at r)
        | inl z ↦ elim (Bool-cases (ltb (length v) al)) [
          | inl y ↦ cc (rw (z, y) at r)
          | inr y ↦
              let m = mac_of_attr at al i v f here (ground arith) h in
              elim (Bool-cases (is_some f'.mi && not (at == attr_message_integrity))) [
                | inl x ↦ found_same f' g m (rw (z, y, x) at r)
                | inr x ↦
                    attrs_loop-HasMac k end (i + 4 + padded al) (drop (padded al) v) f' g next m
                      (rw (z, y, x) at r)
              ]
        ]
      ]

  abbrev Carries : Binding → Type 0
  Carries b = HasMac raw (some (b.mi_offset, b.mi))

  bind_found-Carries :
      (txid : Bytes) (f : Found) (b : Binding)
      → Good f
      → bind_found lossy txid f ≡ Result.ok b
      → Carries b
  unfolding bind_found
  bind_found-Carries txid f b h r = elim (Option-cases f.username) [
    | inl e ↦ cc (simp e at r)
    | inr (u, e) ↦ elim (Option-cases (split_once u)) [
      | inl d ↦ cc (simp (e, d) at r)
      | inr (names, d) ↦ elim (Option-cases f.mi) [
        | inl g ↦ cc (simp (e, d, g) at r)
        | inr (m, g) ↦
            let made : Binding = record {
              txid = txid;
              local_ufrag = names.0;
              remote_ufrag = names.1;
              use_candidate = f.use_candidate;
              mi_offset = m.0;
              mi = m.1;
            } in
            let same : made ≡ b = cc (simp (e, d, g) at r) in
            subst Carries same (subst (HasMac raw) g h)
      ]
    ]
  ]

differ-zero :
    (acc : ℕ) (xs ys : Bytes) → differ acc xs ys ≡ 0 → length xs ≡ length ys → (acc ≡ 0) × (xs ≡ ys)
unfolding differ
differ-zero acc [] [] h l = (h, refl)
differ-zero acc [] (y ∷ ys) h l = absurd (omega arith)
differ-zero acc (x ∷ xs) [] h l = absurd (omega arith)
differ-zero acc (x ∷ xs) (y ∷ ys) h l =
    let (z, e) = differ-zero (bit_or acc (bit_xor x y)) xs ys h (omega arith) in
    let (a, d) = or-zero acc (bit_xor x y) z in let same = xor-zero x y d in (a, cc)

pub Result-cases :
    {A : Type 0} (r : Result A)
    → ((e : StunError) × (r ≡ Result.err e)) ⊎ ((a : A) × (r ≡ Result.ok a))
Result-cases (Result.ok a) = inr (a, refl)
Result-cases (Result.err e) = inl (e, refl)

verified :
    (hmac : Bytes → Bytes → Bytes) (raw : Bytes) (b : Binding) (pwd : Bytes)
    → length (hmac pwd (signed raw b.mi_offset)) ≡ 20
    → HasMac raw (some (b.mi_offset, b.mi))
    → verify hmac raw b pwd ≡ true
    → hmac pwd (signed raw b.mi_offset) ≡ take 20 (drop (b.mi_offset + 4) raw)
unfolding verify
verified hmac raw b pwd size h v =
    let mac = hmac pwd (signed raw b.mi_offset) in
    let z : differ 0 mac b.mi ≡ 0 = ground arith in
    (differ-zero 0 mac b.mi z (omega arith)).1 ∙ sym h.1

module _ (lossy : Bytes → Bytes) where
  parse_stun-Carries :
      (raw : Bytes) (b : Binding) → parse_stun lossy raw ≡ Result.ok b → Carries lossy raw b
  unfolding parse_stun
  parse_stun-Carries (t0 ∷ t1 ∷ l0 ∷ l1 ∷ m0 ∷ m1 ∷ m2 ∷ m3 ∷ rest) b r =
      let raw = t0 ∷ t1 ∷ l0 ∷ l1 ∷ m0 ∷ m1 ∷ m2 ∷ m3 ∷ rest in
      let n = from_be16 l0 l1 in
      elim (Bool-cases (not (from_be16 t0 t1 == binding_request))) [
        | inl z ↦ cc (rw z at r)
        | inr z ↦ elim (Bool-cases (ltb (8 + length rest) (20 + n))) [
          | inl y ↦ cc (rw (z, y) at r)
          | inr y ↦
              elim (Option-cases (attrs_loop lossy n (20 + n) 20 (drop 12 rest) found_nothing)) [
                | inl x ↦ cc (rw (z, y, x) at r)
                | inr (g, x) ↦
                    bind_found-Carries lossy raw (take 12 rest) g b
                      (attrs_loop-HasMac lossy raw n (20 + n) 20 (drop 12 rest) found_nothing g refl
                        tt x)
                      (rw (z, y, x) at r)
              ]
        ]
      ]
  parse_stun-Carries [] b r = cc
  parse_stun-Carries _ b r = cc

  parse-Carries : (raw : Bytes) (b : Binding) → parse lossy raw ≡ Result.ok b → Carries lossy raw b
  unfolding parse
  parse-Carries raw b r = elim (Bool-cases (is_stun raw)) [
    | inl z ↦ parse_stun-Carries raw b (rw z at r)
    | inr z ↦ cc (rw z at r)
  ]

  -- What `verify` says of a message that was read.
  pub verify-authentic :
      (hmac : Bytes → Bytes → Bytes) (raw : Bytes) (b : Binding) (pwd : Bytes)
      → ((key text : Bytes) → length (hmac key text) ≡ 20)
      → parse lossy raw ≡ Result.ok b
      → verify hmac raw b pwd ≡ true
      → hmac pwd (signed raw b.mi_offset) ≡ take 20 (drop (b.mi_offset + 4) raw)
  verify-authentic hmac raw b pwd size z =
      verified hmac raw b pwd (size pwd (signed raw b.mi_offset)) (parse-Carries raw b z)

  -- Where the MAC has twenty bytes, a message is accepted only for a user whose password is known,
  -- and only if its integrity is the MAC, under this password, of what stands before it, with the
  -- length that it had when it was signed.
  pub check-authentic :
      (hmac : Bytes → Bytes → Bytes) (pwd_of : Bytes → Option Bytes) (raw : Bytes) (b : Binding)
      → ((key text : Bytes) → length (hmac key text) ≡ 20)
      → check hmac lossy pwd_of raw ≡ Result.ok b
      → (pwd : Bytes) × (pwd_of b.local_ufrag ≡ some pwd)
        × (hmac pwd (signed raw b.mi_offset) ≡ take 20 (drop (b.mi_offset + 4) raw))
  unfolding check
  check-authentic hmac pwd_of raw b size r = elim (Result-cases (parse lossy raw)) [
    | inl (e, z) ↦ cc (rw z at r)
    | inr (c, z) ↦ elim (Option-cases (pwd_of c.local_ufrag)) [
      | inl y ↦ cc (rw (z, y) at r)
      | inr (pwd, y) ↦ elim (Bool-cases (verify hmac raw c pwd)) [
        | inr x ↦ cc (rw (z, y, x) at r)
        | inl x ↦
            let same : c ≡ b = cc (rw (z, y, x) at r) in
            subst
              (λ b.
                (pwd : Bytes) × (pwd_of b.local_ufrag ≡ some pwd)
                × (hmac pwd (signed raw b.mi_offset) ≡ take 20 (drop (b.mi_offset + 4) raw)))
              same (pwd, y, verify-authentic hmac raw c pwd size z x)
      ]
    ]
  ]
