-- ===== src/Link/Stun/Accepted.antt =====
-- crates/oxsfud/src/link/stun.rs: a message that is signed with the password of its user.
use oxlens_sfu.Base.{
  ℕ, ◌+◌, ◌-◌, ◌*◌, ◌/◌, ◌%◌, ◌<◌, ◌≤◌, ◌==◌, ◌≡◌, ◌∙◌, refl, sym, ap, true, false, List, [], ◌∷◌,
  ◌++◌, Option, none, some, length, take, drop, ltb, leb, be32, from_be16, arith, length-append,
  All, take-append, drop-append, xor_self,
}
use mathlib.Core.List.{append_assoc}
use oxlens_sfu.Link.Tcp.{Bytes}
use oxlens_sfu.Link.Stun.{
  Result, StunError, ◌>>=◌, ok_or, magic, binding_request, attrs_loop, attr_message_integrity,
  found_nothing, is_stun, parse_stun, parse, bind_found, set_len, signed, differ, verify, check,
}
use oxlens_sfu.Link.Stun.Layout.{cell, length-cell, message, signature}
use oxlens_sfu.Link.Stun.Reading.{split_once-append}
use oxlens_sfu.Link.Stun.Attributes.{
  IsPlain, cells, found, named, candidate, name_after, attrs_loop-signed,
}

differ_self : (xs : Bytes) → differ 0 xs xs ≡ 0
unfolding differ
differ_self [] = refl
differ_self (x ∷ xs) = rw (xor_self x) (differ_self xs)

-- What is signed: the head, the transaction and the attributes.
abbrev pub content : Bytes → List (ℕ × Bytes) → Bytes
content txid as' = be32 magic ++ (txid ++ cells as')

-- A request: what is signed, the integrity, and what follows it.
unfoldable pub signed_request : Bytes → List (ℕ × Bytes) → Bytes → ℕ × Bytes → Bytes → Bytes
signed_request txid as' mac b tail =
    let rest = cell attr_message_integrity mac ++ (cell b.0 b.1 ++ tail) in
    message binding_request (length (cells as') + length rest)
      (be32 magic ++ (txid ++ (cells as' ++ rest)))

take_prefix : (n : ℕ) (xs ys : Bytes) → n ≡ length xs → take n (xs ++ ys) ≡ xs
take_prefix n xs ys e = rw e (take-append xs ys)

drop_prefix : (n : ℕ) (xs ys : Bytes) → n ≡ length xs → drop n (xs ++ ys) ≡ ys
drop_prefix n xs ys e = rw e (drop-append xs ys)

module _ (lossy : Bytes → Bytes) where
  -- The reading of a request, when all of it is there.
  parse-whole :
      (l0 l1 : ℕ) (txid rest : Bytes)
      → length txid ≡ 12
      → from_be16 l0 l1 ≤ length rest
      → parse lossy (0 ∷ 1 ∷ l0 ∷ l1 ∷ (be32 magic ++ (txid ++ rest))) ≡ (
          let n = from_be16 l0 l1 in
          ok_or (attrs_loop lossy n (20 + n) 20 rest found_nothing) StunError.malformed
          >>= bind_found lossy txid)
  unfolding parse parse_stun is_stun
  parse-whole l0 l1 txid rest id h =
      let n = length-append txid rest in
      let z : leb 12 (length (txid ++ rest)) ≡ true = ground arith in
      let y : ltb (8 + length (txid ++ rest)) (20 + from_be16 l0 l1) ≡ false = ground arith in
      rw (z, y, take_prefix 12 txid rest (sym id), drop_prefix 12 txid rest (sym id)) refl

length-cells : (as' : List (ℕ × Bytes)) → 4 * length as' ≤ length (cells as')
unfolding cells
length-cells [] = omega arith
length-cells (a ∷ as') =
    omega (arith, length-cells as', length-append (cell a.0 a.1) (cells as'), length-cell a.0 a.1)

module _ (txid : Bytes) (as' : List (ℕ × Bytes)) (mac : Bytes) (b : ℕ × Bytes) (tail : Bytes) where
  abbrev pub ending : Bytes
  ending = cell attr_message_integrity mac ++ (cell b.0 b.1 ++ tail)

  signed-signed_request :
      length txid ≡ 12
      → signed (signed_request txid as' mac b tail) (20 + length (cells as'))
        ≡ message binding_request (length (content txid as') + 8) (content txid as')
  unfolding signed signed_request set_len
  signed-signed_request id =
      let n = length (cells as') + length ending in
      let m = 20 + length (cells as') in
      let start = message binding_request n (content txid as') in
      let size = length-append txid (cells as') in
      ap (λ r. set_len (m - 20 + 24) (take m (message binding_request n (be32 magic ++ r))))
        (sym (append_assoc txid (cells as') ending))
      ∙ ap (set_len (m - 20 + 24)) (take_prefix m start ending (omega arith))
      ∙ ap (λ k. message binding_request k (content txid as')) (omega arith)

  module _ (lossy : Bytes → Bytes) where
    pub parse-signed_request :
        length txid ≡ 12
        → All IsPlain as'
        → IsPlain b
        → length mac ≡ 20
        → length (cells as') + length ending < 65536
        → parse lossy (signed_request txid as' mac b tail)
          ≡ bind_found lossy txid (
              found
                (name_after lossy b (named lossy as' none))
                (some (20 + length (cells as'), mac))
                (candidate lossy as' false))
    unfolding signed_request
    parse-signed_request id h p l short =
        let n = length (cells as') + length ending in
        let size = length-append (cells as') ending in
        let tail_size = length-append (cell attr_message_integrity mac) (cell b.0 b.1 ++ tail) in
        let mac_size = length-cell attr_message_integrity mac in
        let last_size = length-append (cell b.0 b.1) tail in
        let b_size = length-cell b.0 b.1 in
        let count = length-cells as' in
        let e : from_be16 (n / 256 % 256) (n % 256) ≡ n = omega arith in
        parse-whole lossy (n / 256 % 256) (n % 256) txid (cells as' ++ ending) id (omega arith)
        ∙ ap
            (λ k.
              ok_or (attrs_loop lossy k (20 + k) 20 (cells as' ++ ending) found_nothing)
                StunError.malformed
              >>= bind_found lossy txid)
            e
        ∙ ap (λ o. ok_or o StunError.malformed >>= bind_found lossy txid)
            (attrs_loop-signed lossy as' b mac tail n (20 + n) h p l (omega arith) (omega arith))

    -- A request that is signed with the password of its user is accepted. The user is named by the
    -- attribute after the integrity, if that is a name, and by the last name before it if not.
    pub check-signed_request :
        (hmac : Bytes → Bytes → Bytes) (pwd_of : Bytes → Option Bytes)
        (local_ufrag remote_ufrag pwd : Bytes)
        → length txid ≡ 12
        → All IsPlain as'
        → IsPlain b
        → length mac ≡ 20
        → length (cells as') + length ending < 65536
        → name_after lossy b (named lossy as' none) ≡ some (local_ufrag ++ (58 ∷ remote_ufrag))
        → All (λ c. (c == 58) ≡ false) local_ufrag
        → pwd_of local_ufrag ≡ some pwd
        → mac ≡ signature hmac pwd binding_request (content txid as')
        → check hmac lossy pwd_of (signed_request txid as' mac b tail)
          ≡ Result.ok (record {
            txid = txid;
            local_ufrag = local_ufrag;
            remote_ufrag = remote_ufrag;
            use_candidate = candidate lossy as' false;
            mi_offset = 20 + length (cells as');
            mi = mac;
          })
    unfolding check verify bind_found
    check-signed_request hmac pwd_of local_ufrag remote_ufrag pwd id h p l short u colon known
          same =
        rw
          (
            parse-signed_request id h p l short,
            u,
            split_once-append local_ufrag remote_ufrag colon,
            known,
            signed-signed_request id,
            ← same,
            differ_self mac,
          )
          refl
