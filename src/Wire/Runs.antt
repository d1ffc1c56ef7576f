-- ===== src/Wire/Runs.antt =====
-- crates/oxsig/src: concrete frames, messages and operations.
use oxlens_sfu.Base.{
  All, IsByte, ℕ, ◌≡◌, ◌≤◌, refl, true, false, List, [], ◌∷◌, some, arith, length,
}
use oxlens_sfu.Wire.Frame.{Header, Frame, Decoded, decode, encode_flags}
use oxlens_sfu.Wire.Frame.RoundTrip.{decode-encode_flags}
use oxlens_sfu.Wire.Mbcp.Message as Message
use oxlens_sfu.Wire.Mbcp.Message.{any_long, encode_fields, decode_fields, adopted, ack_allowed}
use oxlens_sfu.Wire.Mbcp.Build as Build
use oxlens_sfu.Wire.Mbcp.Build.{push}
use oxlens_sfu.Wire.Mbcp.RoundTrip.{decode-encode, encode-decode, encode-delivers}

abbrev hello : List ℕ
hello = 123 ∷ 125 ∷ []

abbrev head : Header
head = record { flags = 20; op = 257; pid = 70000 }

abbrev hello_frame : Frame
hello_frame = record { header = head; body = hello }

abbrev hello_bytes : List ℕ
hello_bytes = 1 ∷ 20 ∷ 1 ∷ 1 ∷ 0 ∷ 1 ∷ 17 ∷ 112 ∷ hello

decode-encode_flags_example : decode (encode_flags 20 257 70000 hello) ≡ Decoded.ok hello_frame
decode-encode_flags_example =
    decode-encode_flags 20 257 70000 hello (omega arith) (λ e. absurd (omega arith)) (omega arith)
      (omega arith) (omega arith)

abbrev grant : Message.Msg
grant = record {
  msg_type = 1;
  ack = true;
  tlvs = (0, 5 ∷ 0 ∷ []) ∷ (1, 0 ∷ 30 ∷ []) ∷ (29, 114 ∷ 49 ∷ []) ∷ [];
}

abbrev grant_bytes : List ℕ
grant_bytes = 17 ∷ 3 ∷ 0 ∷ 2 ∷ 5 ∷ 0 ∷ 1 ∷ 2 ∷ 0 ∷ 30 ∷ 29 ∷ 2 ∷ 114 ∷ 49 ∷ []

granted-grant : Build.granted 5 30 (114 ∷ 49 ∷ []) ≡ grant
unfolding Build.granted push
granted-grant = refl

decode-encode_example : Message.decode grant_bytes ≡ some grant
unfolding Message.encode encode_fields any_long adopted ack_allowed
decode-encode_example = decode-encode grant grant_bytes refl refl

-- A buffer that ends early.
abbrev cut_bytes : List ℕ
cut_bytes = 0 ∷ 2 ∷ 29 ∷ 2 ∷ 97 ∷ 98 ∷ 0 ∷ 9 ∷ []

abbrev cut : Message.Msg
cut = record { msg_type = 0; ack = false; tlvs = (29, 97 ∷ 98 ∷ []) ∷ [] }

encode-decode_example :
    (c : List ℕ) × (Message.encode cut ≡ some c) × (Message.decode c ≡ some cut) × (length c ≤ 8)
unfolding Message.decode decode_fields adopted
encode-decode_example = encode-decode cut_bytes cut bytes refl refl
  where
    bytes : All IsByte cut_bytes
    bytes = ground arith

encode-delivers_example :
    (b : List ℕ) × (Message.encode grant ≡ some b) × (Message.decode b ≡ some grant)
unfolding adopted ack_allowed any_long
encode-delivers_example = encode-delivers grant refl refl (omega arith) refl
