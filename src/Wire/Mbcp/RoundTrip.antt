-- ===== src/Wire/Mbcp/RoundTrip.antt =====
-- crates/oxsig/src/floor.rs: encoding and decoding together.
use oxlens_sfu.Base.{
  ◌+◌, ℕ, zero, suc, ◌%◌, ◌≤◌, ◌<◌, ◌==◌, ◌≡◌, refl, ap, ◌∙◌, Bool, true, false, not, ◌&&◌, ◌||◌,
  List, [], ◌∷◌, ◌++◌, some, arith, bit_and, bit_or, ltb, length, length-append, length-take,
  take-append, drop-append, length-drop, All-drop, if_cases, take, drop, if◌then◌else◌, IsByte, All,
  agree_below, agree_below-eq,
}
use mathlib.Core.Option.{none-ne-some}
use oxlens_sfu.Wire.Mbcp.Message.{
  Msg, Field, adopted, ack_allowed, any_long, encode_fields, encode, decode_fields, decode,
}

-- The fields are read back.
decode_fields-encode_fields :
    (fs : List Field) → any_long fs ≡ false → decode_fields (length fs) (encode_fields fs) ≡ fs
unfolding decode_fields encode_fields any_long
decode_fields-encode_fields [] h = refl
decode_fields-encode_fields ((id, v) ∷ fs) h =
    let short : length v % 256 ≡ length v = ground arith in
    let fits : ltb (length (v ++ encode_fields fs)) (length v) ≡ false =
      ground (arith, length-append v (encode_fields fs)) in
    let rest : any_long fs ≡ false = ground arith in
    rw
      (
        short,
        fits,
        take-append v (encode_fields fs),
        drop-append v (encode_fields fs),
        decode_fields-encode_fields fs rest,
      )
      refl

head : ℕ → Bool → ℕ
head t a = bit_or (bit_and t 15) (if a then 16 else 0)

head-type : (a : Bool) (t : ℕ) → t < 16 → bit_and (head t a) 15 ≡ t
unfolding agree_below head
head-type true = agree_below-eq (λ t. bit_and (head t true) 15) (λ t. t) 16 refl
head-type false = agree_below-eq (λ t. bit_and (head t false) 15) (λ t. t) 16 refl

head-version : (a : Bool) (t : ℕ) → t < 16 → bit_and (head t a) 192 ≡ 0
unfolding agree_below head
head-version true = agree_below-eq (λ t. bit_and (head t true) 192) (λ t. 0) 16 refl
head-version false = agree_below-eq (λ t. bit_and (head t false) 192) (λ t. 0) 16 refl

head-ack : (a : Bool) (t : ℕ) → t < 16 → bit_and (head t a) 16 ≡ (if a then 16 else 0)
unfolding agree_below head
head-ack true = agree_below-eq (λ t. bit_and (head t true) 16) (λ t. 16) 16 refl
head-ack false = agree_below-eq (λ t. bit_and (head t false) 16) (λ t. 0) 16 refl

adopted-small : (t : ℕ) → adopted t ≡ true → t < 16
unfolding adopted
adopted-small t h = ground arith

encode-some :
    (m : Msg) (b : List ℕ)
    → encode m ≡ some b
    → (b ≡ head m.msg_type m.ack ∷ (length m.tlvs ∷ encode_fields m.tlvs))
      × (any_long m.tlvs ≡ false)
unfolding encode head
encode-some m b e = ground arith

ack_bit : (a : Bool) → not ((if a then 16 else 0) == 0) ≡ a
ack_bit true = refl
ack_bit false = refl

decode-head :
    (t : ℕ) (a : Bool) (n : ℕ) (rest : List ℕ)
    → adopted t ≡ true
    → decode (head t a ∷ n ∷ rest)
      ≡ some (record { msg_type = t; ack = a; tlvs = decode_fields n rest })
unfolding decode
decode-head t a n rest h =
    let small = adopted-small t h in
    rw (head-version a t small, head-type a t small, head-ack a t small, h, ack_bit a) refl

-- A message of a known type that encodes at all is decoded to itself.
pub decode-encode :
    (m : Msg) (b : List ℕ) → adopted m.msg_type ≡ true → encode m ≡ some b → decode b ≡ some m
decode-encode m b t e =
    let (a, h) = encode-some m b e in
    ap decode a
    ∙ decode-head m.msg_type m.ack (length m.tlvs) (encode_fields m.tlvs) t
    ∙ ap (λ fs. some (record { msg_type = m.msg_type; ack = m.ack; tlvs = fs }))
        (decode_fields-encode_fields m.tlvs h)

-- Fields that fit, at most `n` of them, in at most `k` bytes.
Fits : ℕ → ℕ → List Field → Type 0
Fits n k fs = (any_long fs ≡ false) × (length fs ≤ n) × (length (encode_fields fs) ≤ k)

Fits-cons :
    (n len : ℕ) (id : ℕ) (rest : List ℕ)
    → len < 256
    → len ≤ length rest
    → Fits n (length (drop len rest)) (decode_fields n (drop len rest))
    → Fits (suc n) (suc (suc (length rest))) ((id, take len rest) ∷ decode_fields n (drop len rest))
unfolding Fits any_long encode_fields
Fits-cons n len id rest b h (x, y, z) =
    let t = length-take len rest h in
    let d = length-drop len rest h in
    let e = length-append (take len rest) (encode_fields (decode_fields n (drop len rest))) in
    (ground arith, omega arith, omega arith)

-- What is decoded from bytes fits.
decode_fields-Fits :
    (n : ℕ) (rest : List ℕ) → All IsByte rest → Fits n (length rest) (decode_fields n rest)
unfolding decode_fields Fits any_long encode_fields
decode_fields-Fits zero rest h = (refl, omega arith, omega arith)
decode_fields-Fits (suc n) [] h = (refl, omega arith, omega arith)
decode_fields-Fits (suc n) (x ∷ []) h = (refl, omega arith, omega arith)
decode_fields-Fits (suc n) (id ∷ len ∷ rest) (_, (b, h)) =
    if_cases (Fits (suc n) (suc (suc (length rest)))) (ltb (length rest) len)
      (λ _. (refl, omega arith, omega arith))
      (λ e.
        Fits-cons n len id rest b (ground arith)
          (decode_fields-Fits n (drop len rest) (All-drop IsByte len rest h)))

-- What the acceptance of bytes says of them and of the message.
decode-some :
    (hd n : ℕ) (rest : List ℕ) (m : Msg)
    → decode (hd ∷ n ∷ rest) ≡ some m
    → (adopted m.msg_type ≡ true) × (m.tlvs ≡ decode_fields n rest)
unfolding decode
decode-some hd n rest m e = ground arith

encode-fitting :
    (m : Msg) (n k : ℕ)
    → n < 256
    → m.ack && not (ack_allowed m.msg_type) ≡ false
    → Fits n k m.tlvs
    → (c : List ℕ) × (encode m ≡ some c) × (length c ≤ suc (suc k))
unfolding encode Fits
encode-fitting m n k b h (x, y, z) =
    let fits : ltb 255 (length m.tlvs) || any_long m.tlvs ≡ false = ground arith in
    (
      bit_or (bit_and m.msg_type 15) (if m.ack then 16 else 0)
          ∷ (length m.tlvs % 256)
          ∷ encode_fields m.tlvs,
      rw (h, fits) refl,
      omega arith,
    )

-- Bytes that are accepted, unless they carry an acknowledgement bit that their type does not
-- allow, give a message that can be encoded, and whose encoding is accepted as the same message
-- and is no longer.
pub encode-decode :
    (b : List ℕ) (m : Msg)
    → All IsByte b
    → decode b ≡ some m
    → m.ack && not (ack_allowed m.msg_type) ≡ false
    → (c : List ℕ) × (encode m ≡ some c) × (decode c ≡ some m) × (length c ≤ length b)
unfolding decode
encode-decode [] m h d k = absurd (none-ne-some m d)
encode-decode (x ∷ []) m h d k = absurd (none-ne-some m d)
encode-decode (hd ∷ n ∷ rest) m (_, (b, h)) d k =
    let (t, e) = decode-some hd n rest m d in
    let (c, p, q) = encode-fitting m n (length rest) b k (rw e (decode_fields-Fits n rest h)) in
    (c, p, decode-encode m c t p, q)

-- A message of a known type that asks for an acknowledgement only where its type allows it, with
-- at most 255 fields of at most 255 bytes, is encoded, and decoded to itself.
pub encode-delivers :
    (m : Msg)
    → adopted m.msg_type ≡ true
    → m.ack && not (ack_allowed m.msg_type) ≡ false
    → length m.tlvs ≤ 255
    → any_long m.tlvs ≡ false
    → (b : List ℕ) × (encode m ≡ some b) × (decode b ≡ some m)
unfolding Fits
encode-delivers m t k n l =
    let (b, e, _) =
      encode-fitting m 255 (length (encode_fields m.tlvs)) (omega arith) k (l, n, omega arith) in
    (b, e, decode-encode m b t e)

pub encode-length :
    (m : Msg) (b : List ℕ) → encode m ≡ some b → length b ≡ length (encode_fields m.tlvs) + 2
encode-length m b e = let (a, _) = encode-some m b e in ap length a ∙ omega arith
