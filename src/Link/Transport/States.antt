-- ===== src/Link/Transport/States.antt =====
-- crates/oxsfud/src/link/mod.rs: the states of a connection over time.
use oxlens_sfu.Base.{ℕ, ◌≡◌, refl, sym, ap, List, [], ◌∷◌, arith}
use mathlib.Core.Path.{subst}
use oxlens_sfu.Link.Creds.{Creds}
use oxlens_sfu.Link.Transport.{PeerState, Transport, new, enter_state, state_from, set_state}

-- The states that are set, one after the other, each at its time.
unfoldable pub set_states : Transport → List (PeerState × ℕ) → Transport
set_states t [] = t
set_states t ((s, now) ∷ ss) = set_states (set_state t s now).0 ss

-- The state that is the last one set, and since when it is: the time of the first of the settings
-- at the end that are all the same.
unfoldable pub last_state : PeerState → ℕ → List (PeerState × ℕ) → PeerState × ℕ
last_state was since [] = (was, since)
last_state PeerState.alive since ((PeerState.alive, now) ∷ ss) = last_state PeerState.alive since ss
last_state PeerState.suspect since ((PeerState.suspect, now) ∷ ss) =
    last_state PeerState.suspect since ss
last_state was since ((s, now) ∷ ss) = last_state s now ss

-- A connection is suspect since it became so, and only while it is.
unfoldable pub suspected : PeerState × ℕ → ℕ
suspected (PeerState.alive, since) = 0
suspected (PeerState.suspect, since) = since

set_state-state_from :
    (t : Transport) (was s : PeerState) (now : ℕ)
    → t.state ≡ was
    → set_state t s now ≡ state_from t was s now
unfolding set_state
set_state-state_from t was s now e = ap (λ w. state_from t w s now) e

abbrev Agrees : Transport → PeerState × ℕ → Type 0
Agrees t p = (t.state ≡ p.0) × (t.state_since ≡ p.1) × (t.suspect_since ≡ suspected p)

next :
    (t : Transport) (was s : PeerState) (since now : ℕ) (ss : List (PeerState × ℕ))
    → t.state ≡ was
    → Agrees (set_states (state_from t was s now).0 ss) (last_state was since ((s, now) ∷ ss))
    → Agrees (set_states t ((s, now) ∷ ss)) (last_state was since ((s, now) ∷ ss))
unfolding set_states
next t was s since now ss e h =
    subst (λ r. Agrees (set_states r.0 ss) (last_state was since ((s, now) ∷ ss)))
      (sym (set_state-state_from t was s now e)) h

states_from :
    (t : Transport) (was : PeerState) (since : ℕ) (ss : List (PeerState × ℕ))
    → Agrees t (was, since)
    → Agrees (set_states t ss) (last_state was since ss)
unfolding set_states last_state suspected state_from enter_state
states_from t was since [] h = h
states_from t PeerState.alive since ((PeerState.alive, now) ∷ ss) h =
    next t PeerState.alive PeerState.alive since now ss h.0
      (states_from t PeerState.alive since ss h)
states_from t PeerState.suspect since ((PeerState.suspect, now) ∷ ss) h =
    next t PeerState.suspect PeerState.suspect since now ss h.0
      (states_from t PeerState.suspect since ss h)
states_from t PeerState.alive since ((PeerState.suspect, now) ∷ ss) h =
    next t PeerState.alive PeerState.suspect since now ss h.0 (
      states_from (enter_state t PeerState.suspect now) PeerState.suspect now ss
        (refl, refl, ground arith))
states_from t PeerState.suspect since ((PeerState.alive, now) ∷ ss) h =
    next t PeerState.suspect PeerState.alive since now ss h.0
      (states_from (enter_state t PeerState.alive now) PeerState.alive now ss (refl, refl, refl))

-- Whatever states are set on a new connection, it is in the last one of them, since the first of
-- the settings at the end that are all the same, and it is suspect since then if it is suspect
-- and not at all if not.
pub set_states-last_state :
    (c : Creds) (start : ℕ) (ss : List (PeerState × ℕ))
    → (let t = set_states (new c start) ss in
        let p = last_state PeerState.alive start ss in
        (t.state ≡ p.0) × (t.state_since ≡ p.1) × (t.suspect_since ≡ suspected p))
unfolding new suspected
set_states-last_state c start ss =
    states_from (new c start) PeerState.alive start ss (refl, refl, refl)
