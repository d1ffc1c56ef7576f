-- ===== src/Link/Stun.antt =====
-- crates/oxsfud/src/link/stun.rs: STUN bindings. A string is its UTF-8. `String::from_utf8_lossy`,
-- the HMAC-SHA1 of a key and a message, and the CRC-32 are parameters: they are libraries'.
pub mod Build
pub mod Layout
pub mod Reading
pub mod Attributes
pub mod Accepted
pub mod Request
pub mod Authentic
use oxlens_sfu.Base.{
  ℕ, zero, suc, ◌+◌, ◌-◌, ◌*◌, ◌/◌, ◌%◌, ◌==◌, Bool, true, false, not, ◌&&◌, List, [], ◌∷◌, ◌++◌,
  Option, none, some, length, take, drop, ltb, leb, be16, be32, from_be16, from_be32, bit_or,
  if◌then◌else◌,
}
use Prim.Native.Nat.{bit_xor}
use oxlens_sfu.Link.Tcp.{Bytes}

abbrev pub magic : ℕ
magic = 554869826

abbrev pub binding_request : ℕ
binding_request = 1

abbrev pub binding_success : ℕ
binding_success = 257

abbrev pub attr_username : ℕ
attr_username = 6

abbrev pub attr_message_integrity : ℕ
attr_message_integrity = 8

abbrev pub attr_xor_mapped_address : ℕ
attr_xor_mapped_address = 32

abbrev pub attr_use_candidate : ℕ
attr_use_candidate = 37

abbrev pub attr_software : ℕ
attr_software = 32802

abbrev pub attr_fingerprint : ℕ
attr_fingerprint = 32808

-- "oxsfud".
abbrev pub software : Bytes
software = 111 ∷ 120 ∷ 115 ∷ 102 ∷ 117 ∷ 100 ∷ []

pub record Binding : Type 0 where
  pub txid : Bytes
  pub local_ufrag : Bytes
  pub remote_ufrag : Bytes
  pub use_candidate : Bool
  pub mi_offset : ℕ
  pub mi : Bytes

pub data StunError : Type 0 where
  not_stun : StunError
  not_binding : StunError
  malformed : StunError
  no_username : StunError
  no_integrity : StunError
  unknown_ufrag : StunError
  bad_integrity : StunError

pub data Result (A : Type 0) : Type 0 where
  ok : A → Result A
  err : StunError → Result A

infixl 5 ◌>>=◌
abbrev pub ◌>>=◌ : {A B : Type 0} → Result A → (A → Result B) → Result B
Result.ok a >>= f = f a
Result.err e >>= f = Result.err e

abbrev pub ok_or : {A : Type 0} → Option A → StunError → Result A
ok_or none e = Result.err e
ok_or (some a) e = Result.ok a

-- What the loop over the attributes has found so far.
pub record Found : Type 0 where
  pub username : Option Bytes
  pub mi : Option (ℕ × Bytes)
  pub use_candidate : Bool

abbrev pub is_some : {A : Type 0} → Option A → Bool
is_some none = false
is_some (some a) = true

abbrev pub found_nothing : Found
found_nothing = record { username = none; mi = none; use_candidate = false }

-- `al.div_ceil(4) * 4`.
abbrev pub padded : ℕ → ℕ
padded n = (n + 3) / 4 * 4

unfoldable pub is_stun : Bytes → Bool
is_stun (t0 ∷ t1 ∷ l0 ∷ l1 ∷ m0 ∷ m1 ∷ m2 ∷ m3 ∷ rest) =
    leb 12 (length rest) && (ltb t0 4 && from_be32 m0 m1 m2 m3 == magic)
is_stun b = false

unfoldable pub longer : ℕ → Option (Bytes × Bytes) → Option (Bytes × Bytes)
longer c none = none
longer c (some (a, b)) = some (c ∷ a, b)

-- `split_once(':')`.
unfoldable pub split_once : Bytes → Option (Bytes × Bytes)
split_once [] = none
split_once (c ∷ s) = let rest = split_once s in if c == 58 then some ([], s) else longer c rest

module _ (lossy : Bytes → Bytes) where
  -- The `match` on the type of the attribute at `i`.
  unfoldable pub take_attr : ℕ → ℕ → Bytes → Found → Found
  take_attr at i v f =
      if at == attr_username
      then record f { username = some (lossy v) }
      else if at == attr_message_integrity && length v == 20
      then record f { mi = some (i, v) }
      else if at == attr_use_candidate && not (is_some f.mi)
      then record f { use_candidate = true }
      else f

  -- The loop over the attributes up to `end`, at `i`, with the bytes from there on. A round takes
  -- four bytes or more; nothing when an attribute is longer than the message.
  unfoldable pub attrs_loop : ℕ → ℕ → ℕ → Bytes → Found → Option Found
  attrs_loop zero end i s f = some f
  attrs_loop (suc k) end i (a0 ∷ a1 ∷ l0 ∷ l1 ∷ v) f =
      let at = from_be16 a0 a1 in
      let al = from_be16 l0 l1 in
      let f' = take_attr at i (take al v) f in
      let rest = attrs_loop k end (i + 4 + padded al) (drop (padded al) v) f' in
      if leb (i + 4) end
      then (if ltb (length v) al
          then none
          else if is_some f'.mi && not (at == attr_message_integrity)
          then some f'
          else rest)
      else some f
  attrs_loop (suc k) end i s f = some f

  -- The binding of what was found.
  unfoldable pub bind_found : Bytes → Found → Result Binding
  bind_found txid f = do
    u ← ok_or f.username StunError.no_username
    names ← ok_or (split_once u) StunError.no_username
    mi ← ok_or f.mi StunError.no_integrity
    Result.ok (record {
      txid = txid;
      local_ufrag = names.0;
      remote_ufrag = names.1;
      use_candidate = f.use_candidate;
      mi_offset = mi.0;
      mi = mi.1;
    })

  -- `parse` of what looks like STUN.
  unfoldable pub parse_stun : Bytes → Result Binding
  parse_stun (t0 ∷ t1 ∷ l0 ∷ l1 ∷ m0 ∷ m1 ∷ m2 ∷ m3 ∷ rest) =
      let len = from_be16 l0 l1 in
      let found = attrs_loop len (20 + len) 20 (drop 12 rest) found_nothing in
      if not (from_be16 t0 t1 == binding_request)
      then Result.err StunError.not_binding
      else if ltb (8 + length rest) (20 + len)
      then Result.err StunError.malformed
      else ok_or found StunError.malformed >>= bind_found (take 12 rest)
  parse_stun b = Result.err StunError.not_stun

  unfoldable pub parse : Bytes → Result Binding
  parse b = if is_stun b then parse_stun b else Result.err StunError.not_stun

-- A message with another length in its header.
unfoldable pub set_len : ℕ → Bytes → Bytes
set_len n (t0 ∷ t1 ∷ l0 ∷ l1 ∷ rest) = t0 ∷ t1 ∷ (be16 n ++ rest)
set_len n b = b

-- The fold of `acc | (x ^ y)`.
unfoldable pub differ : ℕ → Bytes → Bytes → ℕ
differ acc [] ys = acc
differ acc (x ∷ xs) [] = acc
differ acc (x ∷ xs) (y ∷ ys) = differ (bit_or acc (bit_xor x y)) xs ys

-- The message up to the integrity, with the length that it was signed with.
unfoldable pub signed : Bytes → ℕ → Bytes
signed raw n = set_len (n - 20 + 24) (take n raw)

module _ (hmac : Bytes → Bytes → Bytes) where
  unfoldable pub verify : Bytes → Binding → Bytes → Bool
  verify raw b pwd = differ 0 (hmac pwd (signed raw b.mi_offset)) b.mi == 0

  module _ (lossy : Bytes → Bytes) (pwd_of : Bytes → Option Bytes) where
    unfoldable pub check : Bytes → Result Binding
    check raw = do
      b ← parse lossy raw
      pwd ← ok_or (pwd_of b.local_ufrag) StunError.unknown_ufrag
      if verify raw b pwd then Result.ok b else Result.err StunError.bad_integrity
