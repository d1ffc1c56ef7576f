-- ===== src/Link/Stun/Request.antt =====
-- crates/oxsfud/src/link/stun.rs: the requests that `request` builds.
use oxlens_sfu.Base.{
  ℕ, ◌+◌, ◌%◌, ◌<◌, ◌≤◌, ◌==◌, ◌≡◌, ◌∙◌, refl, sym, ap, Bool, true, false, List, [], ◌∷◌, ◌++◌,
  Option, none, some, length, be32, if◌then◌else◌, arith, length-append, All,
}
use Prim.Native.Nat.{bit_xor}
use mathlib.Core.List.{append_assoc, append-nil}
use oxlens_sfu.Link.Tcp.{Bytes}
use oxlens_sfu.Link.Stun.{
  Binding, Result, magic, binding_request, attr_username, attr_use_candidate,
  attr_message_integrity, attr_fingerprint, check,
}
use oxlens_sfu.Link.Stun.Build.{attr, header, seal, request}
use oxlens_sfu.Link.Stun.Layout.{cell, length-cell, message, signature, attr_lem, seal-message}
use oxlens_sfu.Link.Stun.Attributes.{IsPlain, cells, named, candidate}
use oxlens_sfu.Link.Stun.Accepted.{content, signed_request, check-signed_request}

-- The attributes of a request that are signed.
abbrev pub attrs_of : Bytes → Bool → List (ℕ × Bytes)
attrs_of names use_candidate =
    (attr_username, names) ∷ (if use_candidate then (attr_use_candidate, []) ∷ [] else [])

module _ (hmac : Bytes → Bytes → Bytes) (crc : Bytes → ℕ) (l r pwd txid : Bytes) where
  abbrev pub names : Bytes
  names = l ++ (58 ∷ r)

  -- Before it is sealed.
  unsealed :
      (use_candidate : Bool)
      → length txid ≡ 12
      → (let out = attr (header binding_request txid) attr_username names in
          if use_candidate then attr out attr_use_candidate [] else out)
        ≡ message binding_request 0 (content txid (attrs_of names use_candidate))
  unfolding header cells
  unsealed false h =
      attr_lem (header binding_request txid) attr_username names (omega arith)
      ∙ ap (λ c. header binding_request (txid ++ c)) (sym (append-nil (cell attr_username names)))
  unsealed true h =
      let first = cell attr_username names in
      let next = cell attr_use_candidate [] in
      let out = header binding_request (txid ++ first) in
      let size = length-append txid first in
      let cell_size = length-cell attr_username names in
      ap (λ o. attr o attr_use_candidate [])
        (attr_lem (header binding_request txid) attr_username names (omega arith))
      ∙ attr_lem out attr_use_candidate [] (omega arith)
      ∙ ap (header binding_request) (append_assoc txid first next)
      ∙ ap (λ c. header binding_request (txid ++ (first ++ c))) (sym (append-nil next))

  length-attrs_of :
      (use_candidate : Bool)
      → (length (cells (attrs_of names use_candidate)) % 4 ≡ 0)
        × (length (cells (attrs_of names use_candidate)) ≤ length names + 15)
  unfolding cells
  length-attrs_of false =
      let n = length-cell attr_username names in
      let m = length-append (cell attr_username names) [] in (omega arith, omega arith)
  length-attrs_of true =
      let n = length-cell attr_username names in
      let k = length-cell attr_use_candidate [] in
      let m = length-append (cell attr_username names) (cell attr_use_candidate [] ++ []) in
      let j = length-append (cell attr_use_candidate []) [] in (omega arith, omega arith)

  module _ (use_candidate : Bool) where
    body : Bytes
    body = content txid (attrs_of names use_candidate)

    mac : Bytes
    mac = signature hmac pwd binding_request body

    fingerprint : Bytes
    fingerprint = be32 (
        bit_xor
          (crc
            (message binding_request (length body + 16) (body ++ cell attr_message_integrity mac)))
          1398035790)

    mac_lem : mac ≡ signature hmac pwd binding_request (content txid (attrs_of names use_candidate))
    unfolding mac body
    mac_lem = refl

    length-fingerprint : length fingerprint ≡ 4
    unfolding fingerprint
    length-fingerprint = refl

    request-signed_request :
        length txid ≡ 12
        → length mac ≡ 20
        → request hmac crc l r pwd txid use_candidate
          ≡ signed_request txid
              (attrs_of names use_candidate)
              mac
              (attr_fingerprint, fingerprint)
              []
    unfolding request signed_request mac body fingerprint
    request-signed_request h k =
        let as' = attrs_of names use_candidate in
        let size = length-append txid (cells as') in
        let four = length-attrs_of use_candidate in
        let m = cell attr_message_integrity mac in
        let f = cell attr_fingerprint fingerprint in
        let m_size = length-cell attr_message_integrity mac in
        let f_size = length-cell attr_fingerprint fingerprint in
        let mf_size = length-append m f in
        ap (seal hmac crc pwd) (unsealed use_candidate h)
        ∙ seal-message hmac crc pwd binding_request 0 body (omega arith) (omega arith) k
        ∙ ap (λ n. message binding_request n (body ++ (m ++ f))) (omega arith)
        ∙ ap (λ b. message binding_request (length (cells as') + length (m ++ f)) (be32 magic ++ b))
            (append_assoc txid (cells as') (m ++ f))
        ∙ ap
            (λ t.
              message binding_request (length (cells as') + length (m ++ t))
                (be32 magic ++ (txid ++ (cells as' ++ (m ++ t)))))
            (sym (append-nil f))

  attrs_of-IsPlain :
      (use_candidate : Bool) → length names < 65000 → All IsPlain (attrs_of names use_candidate)
  attrs_of-IsPlain false h = ((omega arith, refl, omega arith), tt)
  attrs_of-IsPlain true h =
      ((omega arith, refl, omega arith), ((omega arith, refl, omega arith), tt))

  module _ (lossy : Bytes → Bytes) where
    named-attrs_of :
        (use_candidate : Bool)
        → named lossy (attrs_of names use_candidate) none ≡ some (lossy names)
    unfolding named
    named-attrs_of false = refl
    named-attrs_of true = refl

    candidate-attrs_of :
        (use_candidate : Bool)
        → candidate lossy (attrs_of names use_candidate) false ≡ use_candidate
    unfolding candidate
    candidate-attrs_of false = refl
    candidate-attrs_of true = refl

  -- A request that is built for two names is accepted by who knows the first one by the same
  -- password, if the first name has no colon, the names are text, and all of it is short enough;
  -- what is read from it is what it was built from.
  pub check-request :
      (lossy : Bytes → Bytes) (pwd_of : Bytes → Option Bytes) (use_candidate : Bool)
      → length txid ≡ 12
      → ((key text : Bytes) → length (hmac key text) ≡ 20)
      → lossy names ≡ names
      → All (λ c. (c == 58) ≡ false) l
      → length names < 65000
      → pwd_of l ≡ some pwd
      → (b : Binding) × (check hmac lossy pwd_of (request hmac crc l r pwd txid use_candidate)
          ≡ Result.ok b)
        × (b.txid ≡ txid)
        × (b.local_ufrag ≡ l)
        × (b.remote_ufrag ≡ r)
        × (b.use_candidate ≡ use_candidate)
  check-request lossy pwd_of uc h k text colon short known =
      let as' = attrs_of names uc in
      let m = mac uc in
      let f = fingerprint uc in
      let mac_size : length m ≡ 20 = ap length (mac_lem uc) ∙ k pwd _ in
      let f_size = length-fingerprint uc in
      let four = length-attrs_of uc in
      let m_cell = length-cell attr_message_integrity m in
      let f_cell = length-cell attr_fingerprint f in
      let f_end = length-append (cell attr_fingerprint f) [] in
      let end_size =
        length-append (cell attr_message_integrity m) (cell attr_fingerprint f ++ []) in
      (
        record {
          txid = txid;
          local_ufrag = l;
          remote_ufrag = r;
          use_candidate = candidate lossy as' false;
          mi_offset = 20 + length (cells as');
          mi = m;
        },
        ap (check hmac lossy pwd_of) (request-signed_request uc h mac_size)
            ∙ check-signed_request txid as' m (attr_fingerprint, f) [] lossy hmac pwd_of l r pwd h
                (attrs_of-IsPlain uc short) (omega arith, refl, omega arith) mac_size (omega arith)
                (named-attrs_of lossy uc ∙ ap some text) colon known (mac_lem uc),
        refl,
        refl,
        refl,
        candidate-attrs_of lossy uc,
      )
