-- ===== src/Link/Receive/Media.antt =====
-- crates/oxsfud/src/fwd/rt.rs: where the media that is taken comes from.
use oxlens_sfu.Base.{
  ℕ, ◌≡◌, refl, ap, Bool, true, false, ◌&&◌, ◌||◌, List, [], ◌∷◌, ◌++◌, Option, none, some, length,
  ltb, leb, if◌then◌else◌, Bool-cases, if_cases, inl, inr,
}
use oxlens_sfu.Link.Tcp.{Bytes}
use oxlens_sfu.Link.Stun.{Binding}
use oxlens_sfu.Link.Stun.Build.{SocketAddr}
use oxlens_sfu.Link.Paths.{PathKey}
use oxlens_sfu.Link.Creds.{Checked}
use oxlens_sfu.Link.Transport.{Transport, PeerState, set_state}
use oxlens_sfu.Link.Receive.{
  RecvState, Reason, Act, Done, Event, refuse, retire, nominate, other_path, was_suspect, dtls_to,
  media_to, accept, stun_in, datagram, run, max_datagram,
}
use oxlens_sfu.Link.Receive.Gate.{stun_in-cases, WasOpened, run-WasOpened}

-- The connections to whose workers media is delivered.
unfoldable pub delivers : List Act → List ℕ
delivers [] = []
delivers (Act.deliver id d at ∷ as') = id ∷ delivers as'
delivers (a ∷ as') = delivers as'

delivers-append : (xs ys : List Act) → delivers (xs ++ ys) ≡ delivers xs ++ delivers ys
unfolding delivers
delivers-append [] ys = refl
delivers-append (Act.deliver id d at ∷ xs) ys = ap (λ l. id ∷ l) (delivers-append xs ys)
delivers-append (Act.drop_count r ∷ xs) ys = delivers-append xs ys
delivers-append (Act.ufrag_promoted t u ∷ xs) ys = delivers-append xs ys
delivers-append (Act.peer_alive t c ∷ xs) ys = delivers-append xs ys
delivers-append (Act.reply k d ∷ xs) ys = delivers-append xs ys
delivers-append (Act.dtls_in t d ∷ xs) ys = delivers-append xs ys

delivers-retire :
    (id : ℕ) (u : Bytes) (chk : Checked) (s : RecvState) → delivers (retire id u chk s).1 ≡ []
unfolding delivers retire
delivers-retire id u Checked.current s = refl
delivers-retire id u (Checked.promoted old) s = refl

delivers_told :
    (b : Bool) (id : ℕ) (c : Bool) → delivers (if b then Act.peer_alive id c ∷ [] else []) ≡ []
unfolding delivers
delivers_told true id c = refl
delivers_told false id c = refl

delivers-nominate :
    (b : Bool) (id : ℕ) (key : PathKey) (now : ℕ) (t : Transport)
    → delivers (nominate b id key now t).1 ≡ []
unfolding nominate
delivers-nominate false id key now t = unfold delivers in refl
delivers-nominate true id key now t =
    let changed = other_path t.path key in
    let was = (set_state (record t { path = some key }) PeerState.alive now).1 in
    delivers_told (was_suspect was || changed) id changed

not_nothing : (id : ℕ) → delivers [] ≡ id ∷ [] → ⊥
unfolding delivers
not_nothing id h = cc

not_refused : (s : RecvState) (r : Reason) (id : ℕ) → delivers (refuse s r).1 ≡ id ∷ [] → ⊥
unfolding delivers refuse
not_refused s r id h = cc

delivers_reply : (key : PathKey) (d : Bytes) → delivers (Act.reply key d ∷ []) ≡ []
unfolding delivers
delivers_reply key d = refl

module _ (hmac : Bytes → Bytes → Bytes) (lossy : Bytes → Bytes) (crc : Bytes → ℕ)
    (local : SocketAddr) where
  delivers-accept :
      (s : RecvState) (id : ℕ) (b : Binding) (p : Bytes) (key : PathKey) (now : ℕ)
      → delivers (accept hmac lossy crc local s id b p key now).1 ≡ []
  unfolding accept
  delivers-accept s id b p key now =
      simp (delivers-append, delivers-retire, delivers-nominate, delivers_reply)

  delivers-stun_in :
      (size : (k text : Bytes) → length (hmac k text) ≡ 20) (s : RecvState) (raw : Bytes)
      (key : PathKey) (now : ℕ)
      → delivers (stun_in hmac lossy crc local s raw key now).1 ≡ []
  delivers-stun_in size s raw key now =
      elim (stun_in-cases hmac lossy size crc local s raw key now) [
        | inl z ↦ rw z (unfold delivers refuse in refl)
        | inr (id, b, p, a, z) ↦ rw z (delivers-accept s id b p key now)
      ]

delivers-dtls_to :
    (s : RecvState) (raw : Bytes) (o known : Option ℕ) → delivers (dtls_to s raw o known).1 ≡ []
unfolding delivers dtls_to refuse
delivers-dtls_to s raw none none = refl
delivers-dtls_to s raw none (some t) = refl
delivers-dtls_to s raw (some t) known = refl

delivers-media_to :
    (s : RecvState) (raw : Bytes) (at id : ℕ) (o : Option ℕ)
    → delivers (media_to s raw at o).1 ≡ id ∷ []
    → o ≡ some id
unfolding delivers media_to refuse
delivers-media_to s raw at id none h = cc
delivers-media_to s raw at id (some t) h = elim (Bool-cases (ltb max_datagram (length raw))) [
  | inl e ↦ cc (rw e at h)
  | inr e ↦ cc (rw e at h)
]

module _ (hmac : Bytes → Bytes → Bytes) (lossy : Bytes → Bytes)
    (size : (k text : Bytes) → length (hmac k text) ≡ 20) (crc : Bytes → ℕ)
    (local : SocketAddr) where
  delivers-datagram :
      (s : RecvState) (raw : Bytes) (key : PathKey) (at now : ℕ) (known : Option ℕ) (id : ℕ)
      → delivers (datagram hmac lossy crc local s raw key at now known).1 ≡ id ∷ []
      → s.by_addr key ≡ some id
  unfolding datagram
  delivers-datagram s [] key at now known id h = absurd (not_nothing id h)
  delivers-datagram s (b0 ∷ rest) key at now known id h =
      let raw = b0 ∷ rest in
      (if_cases C (leb b0 3)
          (λ _ h. cc (delivers-stun_in hmac lossy crc local size s raw key now, h))
          (λ _.
            if_cases C (leb 20 b0 && leb b0 63)
              (λ _ h. cc (delivers-dtls_to s raw (s.by_addr key) known, h))
              (λ _.
                if_cases C (leb 128 b0 && leb b0 191)
                  (λ _ h. delivers-media_to s raw at id (s.by_addr key) h)
                  (λ _ h. absurd (not_refused s Reason.demux_unknown id h)))))
        h
    where
      C : Done → Type 0
      C d = delivers d.1 ≡ id ∷ [] → s.by_addr key ≡ some id

  -- Where the MAC has twenty bytes: after any history of tables that led from no address to a
  -- connection, the media that comes from an address is delivered for a connection only if an
  -- authentic message for this connection, by a user name of it that led to it and a password of it
  -- at that time, came from the same address before.
  pub datagram-WasOpened :
      (s : RecvState) (es : List Event) (raw : Bytes) (key : PathKey) (at now : ℕ)
      (known : Option ℕ) (id : ℕ)
      → ((k : PathKey) → s.by_addr k ≡ none)
      → delivers
          (datagram hmac lossy crc local (run hmac lossy crc local s es) raw key at now known).1
        ≡ id ∷ []
      → WasOpened hmac lossy size crc local s es key id
  datagram-WasOpened s es raw key at now known id empty h =
      elim (run-WasOpened hmac lossy size crc local s es key id
        (delivers-datagram (run hmac lossy crc local s es) raw key at now known id h)) [
          | inl e ↦ cc (empty key)
          | inr w ↦ w
        ]
