-- ===== src/Mesh/Wire/RoundTrip.antt =====
-- crates/oxmesh/src/wire.rs: the encoding of a message is read back.
use oxlens_sfu.Base.{
  ℕ, ◌≤◌, ◌<◌, ◌≡◌, refl, ap, sym, ◌∙◌, length-append, Bool, true, false, [], ◌∷◌, ◌++◌, some,
  length, arith, All, ltb,
}
use mathlib.Core.List.{append-nil}
use mathlib.Core.Path.{subst}
use oxlens_sfu.Mesh.Wire.Decode.{
  kind_from, get_kind, role_from, get_role, evt_from, get_evt, reason_from, get_bool, get_u32,
  get_hello, get_body, whole, decode,
}
use oxlens_sfu.Mesh.Wire.Cursor.{Bytes, Cur, done, ◌>>=◌, put_var, put_bytes, put_pairs, get_u8}
use oxlens_sfu.Mesh.Wire.Message.{
  DeclKind, TokenEvtKind, CloseReason, Role, Hello, Msg, role_code, kind_code, evt_code,
  reason_code, bool_code, put_strs, encode,
}
use oxlens_sfu.Mesh.Wire.Numbers.{IsU64}
use oxlens_sfu.Mesh.Wire.Pieces.{
  Reads, Reads-bind, Reads-last, Reads-done, Reads-u8, Reads-var, Reads-bytes, Reads-count, IsText,
  Reads-str, Reads-strs, IsTextPair, Reads-pairs, length-put_strs,
}

Reads-kind : (k : DeclKind) → Reads get_kind (kind_code k ∷ []) k
unfolding get_kind kind_from done ◌>>=◌ get_u8
Reads-kind DeclKind.token = record { reads = λ rest. refl }
Reads-kind DeclKind.sub = record { reads = λ rest. refl }
Reads-kind DeclKind.qabl = record { reads = λ rest. refl }

Reads-role : (r : Role) → Reads get_role (role_code r ∷ []) r
unfolding get_role role_from done ◌>>=◌ get_u8
Reads-role Role.router = record { reads = λ rest. refl }
Reads-role Role.client = record { reads = λ rest. refl }

Reads-evt : (k : TokenEvtKind) → Reads get_evt (evt_code k ∷ []) k
unfolding get_evt evt_from done ◌>>=◌ get_u8
Reads-evt TokenEvtKind.put = record { reads = λ rest. refl }
Reads-evt TokenEvtKind.delete = record { reads = λ rest. refl }
Reads-evt TokenEvtKind.batch_end = record { reads = λ rest. refl }

Reads-bool : (b : Bool) → Reads get_bool (bool_code b ∷ []) b
unfolding get_bool done ◌>>=◌ get_u8
Reads-bool false = record { reads = λ rest. refl }
Reads-bool true = record { reads = λ rest. refl }

reason_from-reason_code : (r : CloseReason) → reason_from (reason_code r) ≡ r
unfolding reason_from
reason_from-reason_code CloseReason.shutdown = refl
reason_from-reason_code CloseReason.expired = refl
reason_from-reason_code CloseReason.fenced = refl
reason_from-reason_code CloseReason.replaced = refl
reason_from-reason_code CloseReason.refused = refl
reason_from-reason_code CloseReason.duplicate = refl
reason_from-reason_code CloseReason.protocol = refl
reason_from-reason_code CloseReason.io = refl

Reads-u32 : (v : ℕ) → v < 4294967296 → Reads get_u32 (put_var v) v
unfolding get_u32 done ◌>>=◌
Reads-u32 v h =
    let e : ltb v 4294967296 ≡ true = ground arith in
    record { reads = λ rest. rw ((Reads-var v (omega arith)).reads rest, e) refl }

module _ (utf8 : Bytes → Bool) where
  -- What the types of the source say of a message: its numbers have 64 bits or 32, its strings
  -- are UTF-8 and it is all shorter than a number of 64 bits can count.
  pub record FitsHello (h : Hello) : Type 0 where
    pub node : IsText utf8 h.node
    pub boot : IsU64 h.boot
    pub sno : IsU64 h.sno
    pub lease_ms : h.lease_ms < 4294967296
    pub listen : All (IsText utf8) h.listen × IsU64 (length h.listen)
    pub peers : All (IsTextPair utf8) h.peers × IsU64 (length h.peers)

  unfoldable pub Fits : Msg → Type 0
  Fits (Msg.hello h) = FitsHello h
  Fits (Msg.close r) = Unit {0}
  Fits Msg.keep_alive = Unit {0}
  Fits (Msg.declare k i e) = IsU64 i × IsText utf8 e
  Fits (Msg.undeclare k i) = IsU64 i
  Fits Msg.declare_done = Unit {0}
  Fits (Msg.token_sub i e h) = IsU64 i × IsText utf8 e
  Fits (Msg.token_unsub i) = IsU64 i
  Fits (Msg.token_evt i k e) = IsU64 i × IsText utf8 e
  Fits (Msg.peers p) = All (IsTextPair utf8) p × IsU64 (length p)
  Fits (Msg.put k p) = IsText utf8 k × IsU64 (length p)
  Fits (Msg.request q e p t) = IsU64 q × IsText utf8 e × IsU64 (length p) × (t < 4294967296)
  Fits (Msg.reply q k o p) = IsU64 q × IsText utf8 k × IsU64 (length p)
  Fits (Msg.final q) = IsU64 q

  get_message : Cur Msg
  get_message = get_u8 >>= (λ t. get_body utf8 t)

  Reads-hello :
      (h : Hello)
      → FitsHello h
      → Reads
          (get_hello utf8)
          (h.proto
            ∷ role_code h.role
            ∷ (put_bytes h.node
                ++ (put_var h.boot
                    ++ (put_var h.sno
                        ++ (put_var h.lease_ms
                            ++ (put_var (length h.listen)
                                ++ (put_strs h.listen ++ put_pairs h.peers)))))))
          (Msg.hello h)
  unfolding get_hello
  Reads-hello h f =
      let shorter : length h.listen ≤ length (put_strs h.listen ++ put_pairs h.peers) =
        omega (
          arith,
          length-put_strs h.listen,
          length-append (put_strs h.listen) (put_pairs h.peers),
        ) in
      Reads-bind _ (Reads-u8 h.proto) (
        Reads-bind _ (Reads-role h.role) (
          Reads-bind _ (Reads-str utf8 h.node f.node) (
            Reads-bind _ (Reads-var h.boot f.boot) (
              Reads-bind _ (Reads-var h.sno f.sno) (
                Reads-bind _ (Reads-u32 h.lease_ms f.lease_ms) (
                  Reads-count _ (length h.listen) f.listen.1 shorter (
                    Reads-bind _ (Reads-strs utf8 h.listen f.listen.0)
                      (Reads-last _ (Reads-pairs utf8 h.peers f.peers.0 f.peers.1)))))))))

  Reads-close :
      (r : CloseReason)
      → Reads
          (get_u8 >>= (λ v. done (Msg.close (reason_from v))))
          (reason_code r ∷ [])
          (Msg.close r)
  Reads-close r =
      subst
        (λ q.
          Reads (get_u8 >>= (λ v. done (Msg.close (reason_from v)))) (reason_code r ∷ [])
            (Msg.close q))
        (reason_from-reason_code r) (Reads-last _ (Reads-u8 (reason_code r)))

  Reads-message : (m : Msg) → Fits m → Reads get_message (encode m) m
  unfolding Fits encode get_body get_message
  Reads-message (Msg.hello h) f = Reads-bind _ (Reads-u8 0) (Reads-hello h f)
  Reads-message (Msg.close r) f = Reads-bind _ (Reads-u8 1) (Reads-close r)
  Reads-message Msg.keep_alive f = Reads-bind _ (Reads-u8 2) (Reads-done _)
  Reads-message (Msg.declare k i e) (a, b) = Reads-bind _ (Reads-u8 3) (
      Reads-bind _ (Reads-kind k)
        (Reads-bind _ (Reads-var i a) (Reads-last _ (Reads-str utf8 e b))))
  Reads-message (Msg.undeclare k i) a =
      Reads-bind _ (Reads-u8 4) (Reads-bind _ (Reads-kind k) (Reads-last _ (Reads-var i a)))
  Reads-message Msg.declare_done f = Reads-bind _ (Reads-u8 5) (Reads-done _)
  Reads-message (Msg.token_sub i e h) (a, b) = Reads-bind _ (Reads-u8 6) (
      Reads-bind _ (Reads-var i a)
        (Reads-bind _ (Reads-str utf8 e b) (Reads-last _ (Reads-bool h))))
  Reads-message (Msg.token_unsub i) a = Reads-bind _ (Reads-u8 7) (Reads-last _ (Reads-var i a))
  Reads-message (Msg.token_evt i k e) (a, b) = Reads-bind _ (Reads-u8 8) (
      Reads-bind _ (Reads-var i a) (Reads-bind _ (Reads-evt k) (Reads-last _ (Reads-str utf8 e b))))
  Reads-message (Msg.peers p) (a, b) =
      Reads-bind _ (Reads-u8 9) (Reads-last _ (Reads-pairs utf8 p a b))
  Reads-message (Msg.put k p) (a, b) =
      Reads-bind _ (Reads-u8 10)
        (Reads-bind _ (Reads-str utf8 k a) (Reads-last _ (Reads-bytes p b)))
  Reads-message (Msg.request q e p t) (a, b, c, d) = Reads-bind _ (Reads-u8 11) (
      Reads-bind _ (Reads-var q a) (
        Reads-bind _ (Reads-str utf8 e b)
          (Reads-bind _ (Reads-bytes p c) (Reads-last _ (Reads-u32 t d)))))
  Reads-message (Msg.reply q k o p) (a, b, c) = Reads-bind _ (Reads-u8 12) (
      Reads-bind _ (Reads-var q a) (
        Reads-bind _ (Reads-str utf8 k b)
          (Reads-bind _ (Reads-bool o) (Reads-last _ (Reads-bytes p c)))))
  Reads-message (Msg.final q) a = Reads-bind _ (Reads-u8 13) (Reads-last _ (Reads-var q a))

  -- For any test of UTF-8, a message whose numbers have the bits of their types, whose strings
  -- are UTF-8 and whose lists, strings and payloads have lengths of 64 bits is decoded from its
  -- encoding.
  pub decode-encode-Fits : (m : Msg) → Fits m → decode utf8 (encode m) ≡ some m
  unfolding decode get_message ◌>>=◌
  decode-encode-Fits m f =
      ap (whole utf8)
        (ap (get_message) (sym (append-nil (encode m))) ∙ (Reads-message m f).reads [])
