-- ===== src/Mesh/Peering/Crossing.antt =====
-- crates/oxmesh/src/core.rs: two nodes that dial each other.
use oxlens_sfu.Base.{
  ℕ, ◌==◌, ◌≡◌, ◌∙◌, refl, ap, Bool, true, false, not, ◌&&◌, ◌||◌, List, [], ◌∷◌, Option, none,
  some, if◌then◌else◌, arith, Bool-cases, inl, inr,
}
use oxlens_sfu.Mesh.Wire.Cursor.{Bytes}
use oxlens_sfu.Mesh.Wire.Message.{Role, Hello}
use oxlens_sfu.Mesh.KeyExpr.{same}
use oxlens_sfu.Mesh.KeyExpr.Texts.{same_iff}
use oxlens_sfu.Mesh.Peering.{
  less, Link, Node, verdict_on, accept_verdict, set_link, accepted_as, on_accepted, keep_old,
  is_router, on_dialed, my_hello,
}

less_flip : (a b : Bytes) → same a b ≡ false → less b a ≡ not (less a b)
unfolding less same
less_flip [] [] e = ground arith
less_flip [] (y ∷ b) e = refl
less_flip (x ∷ a) [] e = refl
less_flip (x ∷ a) (y ∷ b) e = let i = less_flip a b in ground arith

same_flip : (a b : Bytes) → same a b ≡ false → same b a ≡ false
unfolding same
same_flip [] [] e = ground arith
same_flip [] (y ∷ b) e = refl
same_flip (x ∷ a) [] e = refl
same_flip (x ∷ a) (y ∷ b) e = let i = same_flip a b in ground arith

-- The connection that a node dials with a number.
abbrev pub link_of : Node → ℕ → Link
link_of a m = record { dialer = a.node; boot = a.boot; sno = m }

if_not {ℓ} : {A : Type ℓ} (b : Bool) (x y : A) → b ≡ false → (if b then x else y) ≡ y
if_not true x y e = absurd (ground arith)
if_not false x y e = refl

-- What a node makes of another one: each is a router, and their names differ.
module _ (me you : Node) (apart : same me.node you.node ≡ false) (r : me.router ≡ true)
    (lease_ms : ℕ) (listen : List Bytes) (peers : List (Bytes × Bytes)) where
  hello : ℕ → Hello
  hello n = my_hello you n lease_ms listen peers

  other : same you.node me.node ≡ false
  other = same_flip me.node you.node apart

  -- What is left after the tests of a hello.
  accepted_on :
      (n : ℕ) (o : Option Link)
      → me.links you.node ≡ o
      → on_accepted true (hello n) me ≡ accepted_as (verdict_on o me (hello n)) (hello n) me
  unfolding hello my_hello on_accepted accept_verdict
  accepted_on n o e =
      let t : (not (1 == 1) || same you.node me.node || not me.router) ≡ false =
        let s = other in ground arith in
      ap (λ v. accepted_as v (hello n) me) (if_not _ _ _ t ∙ ap (λ l. verdict_on l me (hello n)) e)

  dialed_on :
      (m : ℕ) (o : Option Link)
      → me.links you.node ≡ o
      → on_dialed (hello m) m me
        ≡ (if keep_old o me (hello m) m then me else set_link you.node (link_of me m) me)
  unfolding hello my_hello on_dialed
  dialed_on m o e =
      let t : (not (1 == 1)
            || same you.node me.node
            || (not me.router && not (is_router (if you.router then Role.router else Role.client))))
          ≡ false =
        let s = other in ground arith in
      if_not _ _ _ t
      ∙ ap (λ l. if keep_old l me (hello m) m then me else set_link you.node (link_of me m) me) e

-- The connection that is kept of the `m`-th dial of one node and the `n`-th of the other.
unfoldable pub winner : Node → ℕ → Node → ℕ → Link
winner a m b n = if less a.node b.node then link_of a m else link_of b n

-- It is the same from either side.
winner_flip : (a b : Node) (m n : ℕ) → same a.node b.node ≡ false → winner b n a m ≡ winner a m b n
unfolding winner
winner_flip a b m n e =
    let f = less_flip a.node b.node e in
    elim (Bool-cases (less a.node b.node)) [ inl d ↦ simp (f, d) refl | inr d ↦ simp (f, d) refl ]

found_link : (n : Bytes) (l : Link) (me : Node) → (set_link n l me).links n ≡ some l
unfolding set_link
found_link n l me = let e = (same_iff n n).1 refl in rw e refl

module _ (me you : Node) (apart : same me.node you.node ≡ false) (r : me.router ≡ true)
    (fresh : me.links you.node ≡ none) (lease_ms : ℕ) (listen : List Bytes)
    (peers : List (Bytes × Bytes)) (m n : ℕ) where
  dial_first :
      (on_accepted true
          (my_hello you n lease_ms listen peers)
          (on_dialed (my_hello you m lease_ms listen peers) m me)).links
        you.node
      ≡ some (winner me m you n)
  unfolding winner hello set_link my_hello verdict_on accepted_as keep_old
  dial_first =
      let one = dialed_on me you apart r lease_ms listen peers m none fresh in
      let me' = set_link you.node (link_of me m) me in
      let two =
        accepted_on me' you apart r lease_ms listen peers n (some (link_of me m))
          (found_link you.node (link_of me m) me) in
      let f = less_flip me.node you.node apart in
      ap (λ (x : Node). x.links you.node)
        (ap (on_accepted true (my_hello you n lease_ms listen peers)) one ∙ two)
      ∙ elim (Bool-cases (less me.node you.node)) [
        | inl e ↦ simp (apart, f, e) (found_link you.node (link_of me m) me)
        | inr e ↦ simp (apart, f, e) (found_link you.node (link_of you n) me')
      ]

  accept_first :
      (on_dialed
          (my_hello you m lease_ms listen peers)
          m
          (on_accepted true (my_hello you n lease_ms listen peers) me)).links
        you.node
      ≡ some (winner me m you n)
  unfolding winner hello set_link my_hello verdict_on accepted_as keep_old
  accept_first =
      let one = accepted_on me you apart r lease_ms listen peers n none fresh in
      let me' = set_link you.node (link_of you n) me in
      let two =
        dialed_on me' you apart r lease_ms listen peers m (some (link_of you n))
          (found_link you.node (link_of you n) me) in
      let f = less_flip me.node you.node apart in
      let g = same_flip me.node you.node apart in
      ap (λ (x : Node). x.links you.node)
        (ap (on_dialed (my_hello you m lease_ms listen peers) m) one ∙ two)
      ∙ elim (Bool-cases (less me.node you.node)) [
        | inl e ↦ simp (g, f, e) (found_link you.node (link_of me m) me')
        | inr e ↦ simp (g, f, e) (found_link you.node (link_of you n) me)
      ]

-- Two routers with different names, neither of which has a connection to the other, dial each
-- other at the same time. Each of them learns in either order that its own dial came through and
-- that it was dialed. Then both keep the same connection, which is the one that was dialed by the
-- node whose name is less.
pub crossing_dials :
    (a b : Node) (m n lease_a lease_b : ℕ) (listen_a listen_b : List Bytes)
    (peers_a peers_b : List (Bytes × Bytes))
    → same a.node b.node ≡ false
    → a.router ≡ true
    → b.router ≡ true
    → a.links b.node ≡ none
    → b.links a.node ≡ none
    → ((on_accepted true
            (my_hello b n lease_b listen_b peers_b)
            (on_dialed (my_hello b m lease_b listen_b peers_b) m a)).links
          b.node
        ≡ some (winner a m b n))
      × ((on_dialed
              (my_hello b m lease_b listen_b peers_b)
              m
              (on_accepted true (my_hello b n lease_b listen_b peers_b) a)).links
            b.node
          ≡ some (winner a m b n))
      × ((on_accepted true
              (my_hello a m lease_a listen_a peers_a)
              (on_dialed (my_hello a n lease_a listen_a peers_a) n b)).links
            a.node
          ≡ some (winner a m b n))
      × ((on_dialed
              (my_hello a n lease_a listen_a peers_a)
              n
              (on_accepted true (my_hello a m lease_a listen_a peers_a) b)).links
            a.node
          ≡ some (winner a m b n))
crossing_dials a b m n lease_a lease_b listen_a listen_b peers_a peers_b apart r u x y =
    let back = same_flip a.node b.node apart in
    let w = ap some (winner_flip a b m n apart) in
    (
      dial_first a b apart r x lease_b listen_b peers_b m n,
      accept_first a b apart r x lease_b listen_b peers_b m n,
      dial_first b a back u y lease_a listen_a peers_a n m ∙ w,
      accept_first b a back u y lease_a listen_a peers_a n m ∙ w,
    )
