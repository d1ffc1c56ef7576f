-- ===== src/Link/Stun/Build.antt =====
-- crates/oxsfud/src/link/stun.rs: the building of requests and of responses.
use oxlens_sfu.Base.{
  ℕ, zero, suc, ◌+◌, ◌-◌, ◌/◌, ◌%◌, ◌==◌, Bool, [], ◌∷◌, ◌++◌, length, be16, be32, if◌then◌else◌,
}
use Prim.Native.Nat.{bit_xor}
use oxlens_sfu.Link.Tcp.{Bytes}
use oxlens_sfu.Link.Stun.{
  magic, binding_request, binding_success, attr_username, attr_message_integrity,
  attr_xor_mapped_address, attr_use_candidate, attr_software, attr_fingerprint, software, set_len,
}

-- The loop of `attr` that fills up to four bytes.
unfoldable pub pad_loop : ℕ → Bytes → Bytes
pad_loop zero out = out
pad_loop (suc k) out =
    let rest = pad_loop k (out ++ 0 ∷ []) in if length out % 4 == 0 then out else rest

unfoldable pub attr : Bytes → ℕ → Bytes → Bytes
attr out ty v = pad_loop 3 (out ++ (be16 ty ++ (be16 (length v) ++ v)))

-- `SocketAddr`, with the address of IPv4 as a number; that of IPv6 has a port, flow information and a
-- scope.
pub data SocketAddr : Type 0 where
  v4 : ℕ → ℕ → SocketAddr
  v6 : Bytes → ℕ → ℕ → ℕ → SocketAddr

-- The zip of the bytes with the key.
unfoldable pub xor_bytes : Bytes → Bytes → Bytes
xor_bytes [] k = []
xor_bytes (x ∷ xs) [] = []
xor_bytes (x ∷ xs) (k ∷ ks) = bit_xor x k ∷ xor_bytes xs ks

unfoldable pub mapped_address : Bytes → SocketAddr → Bytes
mapped_address txid (SocketAddr.v4 ip port) =
    0 ∷ 1 ∷ (be16 (bit_xor port (magic / 65536)) ++ be32 (bit_xor ip magic))
mapped_address txid (SocketAddr.v6 ip port flow scope) =
    0 ∷ 2 ∷ (be16 (bit_xor port (magic / 65536)) ++ xor_bytes ip (be32 magic ++ txid))

unfoldable pub header : ℕ → Bytes → Bytes
header ty txid = be16 ty ++ (0 ∷ 0 ∷ (be32 magic ++ txid))

module _ (hmac : Bytes → Bytes → Bytes) (crc : Bytes → ℕ) where
  -- The integrity, and then the fingerprint.
  unfoldable pub seal : Bytes → Bytes → Bytes
  seal pwd out =
      let out1 = set_len (length out - 20 + 24) out in
      let out2 = attr out1 attr_message_integrity (hmac pwd out1) in
      let out3 = set_len (length out2 - 20 + 8) out2 in
      attr out3 attr_fingerprint (be32 (bit_xor (crc out3) 1398035790))

  unfoldable pub success : Bytes → SocketAddr → Bytes → Bytes
  success txid from pwd = seal pwd (
      attr (attr (header binding_success txid) attr_xor_mapped_address (mapped_address txid from))
        attr_software software)

  unfoldable pub request : Bytes → Bytes → Bytes → Bytes → Bool → Bytes
  request local_ufrag remote_ufrag pwd txid use_candidate =
      let out =
        attr (header binding_request txid) attr_username (local_ufrag ++ (58 ∷ remote_ufrag)) in
      seal pwd (if use_candidate then attr out attr_use_candidate [] else out)
