-- ===== src/Link/Receive/Gate.antt =====
-- crates/oxsfud/src/fwd/rt.rs: what opens the tables to an address.
use oxlens_sfu.Base.{
  ℕ, ◌+◌, ◌≡◌, ◌⊎◌, ◌∙◌, refl, sym, ◌&&◌, List, [], ◌∷◌, Option, none, some, length, take, drop,
  leb, if◌then◌else◌, arith, Bool-cases, Option-cases, if_cases, inl, inr,
}
use mathlib.Core.Path.{subst}
use oxlens_sfu.Link.Tcp.{Bytes}
use oxlens_sfu.Link.Stun.{Binding, Result, parse, signed, verify}
use oxlens_sfu.Link.Stun.Build.{SocketAddr}
use oxlens_sfu.Link.Stun.Authentic.{verify-authentic, Result-cases}
use oxlens_sfu.Link.Paths.{PathKey, same_key, same_key-eq}
use oxlens_sfu.Link.Creds.{Checked, pwd, checked}
use oxlens_sfu.Link.Transport.{touch_pair}
use oxlens_sfu.Link.Receive.{
  RecvState, Reason, Done, Event, refuse, retire, dtls_to, media_to, accept, with_pwd,
  with_transport, with_binding, stun_in, datagram, unless, step, run, bind_addr,
}

unless-some : (t : ℕ) (o : Option ℕ) (id : ℕ) → unless t o ≡ some id → o ≡ some id
unless-some t none id h = h
unless-some t (some u) id h = ground arith

module _ (hmac : Bytes → Bytes → Bytes) (lossy : Bytes → Bytes)
    (size : (key text : Bytes) → length (hmac key text) ≡ 20) where
  -- A message that names a user of a connection, and is signed with one of its passwords.
  abbrev pub Authentic : RecvState → Bytes → ℕ → Type 0
  Authentic s raw id =
      (b : Binding) × (p : Bytes) × (parse lossy raw ≡ Result.ok b)
      × (s.by_ufrag b.local_ufrag ≡ some id)
      × (pwd (s.transports id).creds b.local_ufrag ≡ some p)
      × (hmac p (signed raw b.mi_offset) ≡ take 20 (drop (b.mi_offset + 4) raw))

  module _ (crc : Bytes → ℕ) (local : SocketAddr) where
    -- Either a message is authentic and is accepted, or it changes nothing.
    pub stun_in-cases :
        (s : RecvState) (raw : Bytes) (key : PathKey) (now : ℕ)
        → (stun_in hmac lossy crc local s raw key now ≡ refuse s Reason.stun_unverified)
          ⊎ ((id : ℕ) × (b : Binding) × (p : Bytes) × Authentic s raw id
              × (stun_in hmac lossy crc local s raw key now
                  ≡ accept hmac lossy crc local s id b p key now))
    unfolding stun_in with_binding with_transport with_pwd
    stun_in-cases s raw key now = elim (Result-cases (parse lossy raw)) [
      | inl (e, z) ↦ inl (rw z refl)
      | inr (b, z) ↦ elim (Option-cases (s.by_ufrag b.local_ufrag)) [
        | inl y ↦ inl (rw (z, y) refl)
        | inr (id, y) ↦ elim (Option-cases (pwd (s.transports id).creds b.local_ufrag)) [
          | inl x ↦ inl (rw (z, y, x) refl)
          | inr (p, x) ↦ elim (Bool-cases (verify hmac raw b p)) [
            | inr w ↦ inl (rw (z, y, x, w) refl)
            | inl w ↦ inr (
              id,
              b,
              p,
              (b, p, z, y, x, verify-authentic lossy hmac raw b p size z w),
              rw (z, y, x, w) refl,
            )
          ]
        ]
      ]
    ]

    retire_by_addr :
        (id : ℕ) (u : Bytes) (chk : Checked) (s : RecvState) (k : PathKey)
        → (retire id u chk s).0.by_addr k ≡ s.by_addr k
    unfolding retire
    retire_by_addr id u Checked.current s k = refl
    retire_by_addr id u (Checked.promoted old) s k = refl

    accept_by_addr :
        (s : RecvState) (id : ℕ) (b : Binding) (p : Bytes) (key : PathKey) (now : ℕ) (k : PathKey)
        → (accept hmac lossy crc local s id b p key now).0.by_addr k
          ≡ (if same_key key k then some id else s.by_addr k)
    unfolding accept
    accept_by_addr s id b p key now k =
        retire_by_addr id b.local_ufrag
          (checked (touch_pair (s.transports id) key now).creds b.local_ufrag).1
          (bind_addr key (some id) s) k

    -- The event is an authentic message for a connection, from an address.
    abbrev pub Opened : RecvState → Event → PathKey → ℕ → Type 0
    Opened s (Event.heard raw key at now known) k id = (key ≡ k) × Authentic s raw id
    Opened s _ k id = ⊥

    module _ (s : RecvState) (k : PathKey) (id : ℕ) where
      -- What is known when an address leads to a connection after an event.
      abbrev Kept : Event → RecvState → Type 0
      Kept e s' = s'.by_addr k ≡ some id → (s.by_addr k ≡ some id) ⊎ Opened s e k id

      stun_in-Kept :
          (raw : Bytes) (key : PathKey) (at now : ℕ) (known : Option ℕ)
          → Kept (Event.heard raw key at now known) (stun_in hmac lossy crc local s raw key now).0
      unfolding refuse
      stun_in-Kept raw key at now known h = elim (stun_in-cases s raw key now) [
        | inl z ↦ inl (subst (λ (d : Done). d.0.by_addr k ≡ some id) z h)
        | inr (t, b, p, a, z) ↦
            let there =
              sym (accept_by_addr s t b p key now k)
              ∙ subst (λ (d : Done). d.0.by_addr k ≡ some id) z h in
            elim (Bool-cases (same_key key k)) [
              | inl e ↦
                  let same : t ≡ id = cc (rw e at there) in
                  inr (same_key-eq key k e, subst (Authentic s raw) same a)
              | inr e ↦ inl (rw e at there)
            ]
      ]

      dtls_to_by_addr :
          (raw : Bytes) (o known : Option ℕ) → (dtls_to s raw o known).0.by_addr k ≡ s.by_addr k
      unfolding dtls_to refuse
      dtls_to_by_addr raw none none = refl
      dtls_to_by_addr raw none (some t) = refl
      dtls_to_by_addr raw (some t) known = refl

      media_to_by_addr :
          (raw : Bytes) (at : ℕ) (o : Option ℕ) → (media_to s raw at o).0.by_addr k ≡ s.by_addr k
      unfolding media_to refuse
      media_to_by_addr raw at none = refl
      media_to_by_addr raw at (some t) = ground arith

      step-Kept : (e : Event) → Kept e (step hmac lossy crc local s e)
      unfolding step datagram refuse
      step-Kept (Event.heard [] key at now known) h = inl h
      step-Kept (Event.heard (b0 ∷ rest) key at now known) h =
          let raw = b0 ∷ rest in
          let e = Event.heard raw key at now known in
          (if_cases (λ (d : Done). Kept e d.0) (leb b0 3) (λ _. stun_in-Kept raw key at now known)
              (λ _.
                if_cases (λ (d : Done). Kept e d.0) (leb 20 b0 && leb b0 63)
                  (λ _ h. inl (sym (dtls_to_by_addr raw (s.by_addr key) known) ∙ h))
                  (λ _.
                    if_cases (λ (d : Done). Kept e d.0) (leb 128 b0 && leb b0 191)
                      (λ _ h. inl (sym (media_to_by_addr raw at (s.by_addr key)) ∙ h))
                      (λ _ h. inl h))))
            h
      step-Kept (Event.register u t) h = inl h
      step-Kept (Event.drop_ufrag u) h = inl h
      step-Kept (Event.unregister t) h = inl (unless-some t (s.by_addr k) id h)
      step-Kept (Event.tcp_closed t) h = inl (ground arith)
      step-Kept (Event.restarted t next) h = inl h
      step-Kept (Event.state_set t state now) h = inl h

    -- Somewhere in a history, an authentic message for a connection came from an address.
    abbrev pub WasOpened : RecvState → List Event → PathKey → ℕ → Type 0
    WasOpened s [] k id = ⊥
    WasOpened s (e ∷ es) k id = Opened s e k id ⊎ WasOpened (step hmac lossy crc local s e) es k id

    pub run-WasOpened :
        (s : RecvState) (es : List Event) (k : PathKey) (id : ℕ)
        → (run hmac lossy crc local s es).by_addr k ≡ some id
        → (s.by_addr k ≡ some id) ⊎ WasOpened s es k id
    unfolding run
    run-WasOpened s [] k id h = inl h
    run-WasOpened s (e ∷ es) k id h =
        elim (run-WasOpened (step hmac lossy crc local s e) es k id h) [
          | inr w ↦ inr (inr w)
          | inl g ↦ elim (step-Kept s k id e g) [ inl b ↦ inl b | inr o ↦ inr (inl o) ]
        ]
