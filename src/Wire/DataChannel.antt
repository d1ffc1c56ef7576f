-- ===== src/Wire/DataChannel.antt =====
-- crates/oxsig/src/dc.rs: frames of the data channel, four bytes and a payload.
use oxlens_sfu.Base.{
  ℕ, zero, suc, ◌+◌, ◌≤◌, ◌<◌, ◌==◌, ◌≡◌, refl, ap, ◌∙◌, true, false, not, List, [], ◌∷◌, ◌++◌,
  Option, none, some, arith, ltb, ◌/◌, ◌%◌, length, length-append, length-take, take, be16,
  from_be16, if◌then◌else◌,
}

abbrev pub ver : ℕ
ver = 1

abbrev pub max_payload : ℕ
max_payload = 65532

pub record DcFrame : Type 0 where
  pub svc : ℕ
  pub payload : List ℕ

unfoldable pub decode : List ℕ → Option DcFrame
decode (v ∷ svc ∷ l1 ∷ l0 ∷ rest) =
    let len = from_be16 l1 l0 in
    if not (v == ver)
    then none
    else if ltb (length rest) len
    then none
    else some (record { svc = svc; payload = take len rest })
decode _ = none

unfoldable pub encode : ℕ → List ℕ → Option (List ℕ)
encode svc payload =
    if ltb max_payload (length payload)
    then none
    else some (ver ∷ svc ∷ (be16 (length payload) ++ payload))

take_all : (xs ys : List ℕ) → take (length xs) (xs ++ ys) ≡ xs
take_all [] ys = refl
take_all (x ∷ xs) ys = ap (λ l. x ∷ l) (take_all xs ys)

-- A payload that fits is encoded, and decoded from the encoding and whatever follows it.
pub decode-encode_append :
    (svc : ℕ) (payload rest : List ℕ)
    → length payload ≤ max_payload
    → (b : List ℕ) × (encode svc payload ≡ some b)
      × (decode (b ++ rest) ≡ some (record { svc = svc; payload = payload }))
unfolding encode decode
decode-encode_append svc payload rest h =
    let word : from_be16 (length payload / 256 % 256) (length payload % 256) ≡ length payload =
      omega arith in
    let enough : ltb (length (payload ++ rest)) (length payload) ≡ false =
      ground (arith, length-append payload rest) in
    let fits : ltb max_payload (length payload) ≡ false = ground arith in
    (
      ver ∷ svc ∷ (be16 (length payload) ++ payload),
      rw fits refl,
      rw (word, enough, take_all payload rest) refl,
    )

encode-some :
    (svc : ℕ) (payload b : List ℕ)
    → encode svc payload ≡ some b
    → (b ≡ ver ∷ svc ∷ (be16 (length payload) ++ payload)) × (length payload ≤ max_payload)
unfolding encode
encode-some svc payload b e = ground arith

cut :
    (svc : ℕ) (payload : List ℕ) (n : ℕ)
    → length payload ≤ max_payload
    → n < 4 + length payload
    → decode (take n (ver ∷ svc ∷ (be16 (length payload) ++ payload))) ≡ none
unfolding decode
cut svc payload zero h k = refl
cut svc payload (suc zero) h k = refl
cut svc payload (suc (suc zero)) h k = refl
cut svc payload (suc (suc (suc zero))) h k = refl
cut svc payload (suc (suc (suc (suc m)))) h k =
    let t = length-take m payload (omega arith) in
    let word : from_be16 (length payload / 256 % 256) (length payload % 256) ≡ length payload =
      omega arith in
    let short : ltb (length (take m payload)) (length payload) ≡ true = ground arith in
    rw (word, short) refl

-- A frame that is cut anywhere is not decoded.
pub decode-take :
    (svc : ℕ) (payload b : List ℕ) (n : ℕ)
    → encode svc payload ≡ some b
    → n < length b
    → decode (take n b) ≡ none
decode-take svc payload b n e h =
    let (q, l) = encode-some svc payload b e in
    ap (λ x. decode (take n x)) q ∙ cut svc payload n l (ground arith)
