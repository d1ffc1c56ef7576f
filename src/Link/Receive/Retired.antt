-- ===== src/Link/Receive/Retired.antt =====
-- crates/oxsfud/src/fwd/rt.rs and link/creds.rs: the credentials that a restart replaces.
use oxlens_sfu.Base.{ℕ, ◌≡◌, ◌∙◌, refl, ap, true, none, some}
use mathlib.Core.Path.{subst}
use oxlens_sfu.Link.Tcp.{Bytes}
use oxlens_sfu.Link.Stun.{Binding, Result, parse}
use oxlens_sfu.Link.Stun.Build.{SocketAddr}
use oxlens_sfu.Link.Paths.{PathKey, same_bytes, same_bytes_refl}
use oxlens_sfu.Link.Creds.{Cred, Creds, Checked, checked_pending, checked}
use oxlens_sfu.Link.Transport.{touch_pair}
use oxlens_sfu.Link.Receive.{
  RecvState, Reason, refuse, retire, accept, with_transport, with_binding, stun_in, bind_addr,
}

checked-pending :
    (c : Creds) (p : Cred) (u : Bytes)
    → c.pending ≡ some p
    → p.ufrag ≡ u
    → checked c u ≡ (record { active = p; pending = none }, Checked.promoted c.active.ufrag)
unfolding checked checked_pending
checked-pending c p u e d =
    let same : same_bytes p.ufrag u ≡ true =
      subst (λ v. same_bytes p.ufrag v ≡ true) d (same_bytes_refl p.ufrag) in
    ap (λ o. checked_pending c o u) e ∙ rw same refl

module _ (hmac : Bytes → Bytes → Bytes) (lossy : Bytes → Bytes) (crc : Bytes → ℕ)
    (local : SocketAddr) where
  module _ (s : RecvState) (id : ℕ) (b : Binding) (pwd : Bytes) (key : PathKey) (now : ℕ) (p : Cred)
      (waits : (s.transports id).creds.pending ≡ some p) (new : p.ufrag ≡ b.local_ufrag) where
    retired_by_ufrag :
        (accept hmac lossy crc local s id b pwd key now).0.by_ufrag
          (s.transports id).creds.active.ufrag
        ≡ none
    unfolding accept touch_pair retire
    retired_by_ufrag =
        let c = (s.transports id).creds in
        ap
          (λ (r : Creds × Checked).
            (retire id b.local_ufrag r.1 (bind_addr key (some id) s)).0.by_ufrag c.active.ufrag)
          (checked-pending c p b.local_ufrag waits new)
        ∙ rw (same_bytes_refl c.active.ufrag) refl

    -- When a message is accepted for the pending user name of a connection, then from there on each
    -- message that names the user who was active before is refused and changes nothing, whatever
    -- its signature.
    pub stun_in-retired :
        (raw : Bytes) (b' : Binding) (key' : PathKey) (now' : ℕ)
        → parse lossy raw ≡ Result.ok b'
        → b'.local_ufrag ≡ (s.transports id).creds.active.ufrag
        → (let s' = (accept hmac lossy crc local s id b pwd key now).0 in
            stun_in hmac lossy crc local s' raw key' now' ≡ refuse s' Reason.stun_unverified)
    unfolding stun_in with_binding with_transport
    stun_in-retired raw b' key' now' h e =
        let s' = (accept hmac lossy crc local s id b pwd key now).0 in
        ap (with_binding hmac lossy crc local s' raw key' now') h
        ∙ ap (with_transport hmac lossy crc local s' raw key' now' b')
            (ap s'.by_ufrag e ∙ retired_by_ufrag)
