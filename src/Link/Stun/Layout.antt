-- ===== src/Link/Stun/Layout.antt =====
-- crates/oxsfud/src/link/stun.rs: the layout of the messages that are built.
use oxlens_sfu.Base.{
  ℕ, zero, suc, ◌+◌, ◌-◌, ◌%◌, ◌<◌, ◌≤◌, ◌==◌, ◌≡◌, ◌∙◌, refl, sym, ap, true, false, [], ◌∷◌, ◌++◌,
  length, be16, be32, arith, length-append,
}
use mathlib.Core.List.{append_assoc, append-nil}
use Prim.Native.Nat.{bit_xor}
use oxlens_sfu.Link.Tcp.{Bytes}
use oxlens_sfu.Link.Stun.{attr_message_integrity, attr_fingerprint, set_len, padded}
use oxlens_sfu.Link.Stun.Build.{pad_loop, attr, seal}

unfoldable pub zeros : ℕ → Bytes
zeros zero = []
zeros (suc n) = 0 ∷ zeros n

pub length-zeros : (n : ℕ) → length (zeros n) ≡ n
unfolding zeros
length-zeros zero = refl
length-zeros (suc n) = omega (arith, length-zeros n)

pad_loop-zeros :
    (k n : ℕ) (out : Bytes)
    → n ≤ k
    → n < 4
    → (length out + n) % 4 ≡ 0
    → pad_loop k out ≡ out ++ zeros n
unfolding pad_loop zeros
pad_loop-zeros zero zero out h l e = sym (append-nil out)
pad_loop-zeros zero (suc n) out h l e = absurd (omega arith)
pad_loop-zeros (suc k) zero out h l e =
    let z : (length out % 4 == 0) ≡ true = ground arith in rw (z, append-nil) refl
pad_loop-zeros (suc k) (suc n) out h l e =
    let z : (length out % 4 == 0) ≡ false = ground arith in
    rw z (
      pad_loop-zeros k n (out ++ 0 ∷ []) (omega arith) (omega arith)
        (omega (arith, length-append out (0 ∷ [])))
      ∙ append_assoc out (0 ∷ []) (zeros n))

-- An attribute with its type, its length and what fills it up.
unfoldable pub cell : ℕ → Bytes → Bytes
cell ty v = be16 ty ++ (be16 (length v) ++ (v ++ zeros (padded (length v) - length v)))

pub length-cell : (ty : ℕ) (v : Bytes) → length (cell ty v) ≡ 4 + padded (length v)
unfolding cell
length-cell ty v =
    let n = padded (length v) - length v in omega (arith, length-append v (zeros n), length-zeros n)

pub attr_lem :
    (out : Bytes) (ty : ℕ) (v : Bytes) → length out % 4 ≡ 0 → attr out ty v ≡ out ++ cell ty v
unfolding attr cell
attr_lem out ty v h =
    let n = padded (length v) - length v in
    let whole = be16 ty ++ (be16 (length v) ++ v) in
    pad_loop-zeros 3 n (out ++ whole) (omega arith) (omega arith)
      (omega (arith, length-append out whole))
    ∙ append_assoc out whole (zeros n)

-- A message with its type, its length and its body.
abbrev pub message : ℕ → ℕ → Bytes → Bytes
message ty n body = be16 ty ++ (be16 n ++ body)

module _ (hmac : Bytes → Bytes → Bytes) where
  -- The signature of a message, which counts the integrity in its length.
  abbrev pub signature : Bytes → ℕ → Bytes → Bytes
  signature pwd ty body = hmac pwd (message ty (length body + 8) body)

  abbrev pub integrity : Bytes → ℕ → Bytes → Bytes
  integrity pwd ty body = cell attr_message_integrity (signature pwd ty body)

module _ (hmac : Bytes → Bytes → Bytes) (crc : Bytes → ℕ) where
  pub seal-message :
      (pwd : Bytes) (ty n : ℕ) (body : Bytes)
      → length body % 4 ≡ 0
      → 16 ≤ length body
      → length (signature hmac pwd ty body) ≡ 20
      → seal hmac crc pwd (message ty n body) ≡ (
          let mac = integrity hmac pwd ty body in
          let out = message ty (length body + 16) (body ++ mac) in
          message ty
            (length body + 16)
            (body ++ (mac ++ cell attr_fingerprint (be32 (bit_xor (crc out) 1398035790)))))
  unfolding seal set_len
  seal-message pwd ty n body h l e =
      let first : suc (suc (suc (suc (length body)))) - 20 + 24 ≡ length body + 8 = omega arith in
      let second : attr (message ty (length body + 8) body) attr_message_integrity
            (signature hmac pwd ty body)
          ≡ message ty (length body + 8) (body ++ integrity hmac pwd ty body) =
        attr_lem (message ty (length body + 8) body) attr_message_integrity
          (signature hmac pwd ty body) (omega arith) in
      let mac = integrity hmac pwd ty body in
      let third : suc (suc (suc (suc (length (body ++ mac))))) - 20 + 8 ≡ length body + 16 = omega (
        arith,
        length-append body mac,
        length-cell attr_message_integrity (signature hmac pwd ty body),
      ) in
      let out = message ty (length body + 16) (body ++ mac) in
      let f = be32 (bit_xor (crc out) 1398035790) in
      rw (first, second, third)
        (attr_lem out attr_fingerprint f (
            omega (
              arith,
              length-append body mac,
              length-cell attr_message_integrity (signature hmac pwd ty body),
            ))
          ∙ ap (message ty (length body + 16)) (append_assoc body mac (cell attr_fingerprint f)))
