-- ===== src/Link/Transport/Liveness.antt =====
-- crates/oxsfud/src/link/mod.rs: the pairs of addresses and how long they may be used.
use oxlens_sfu.Base.{
  ℕ, ◌+◌, ◌≡◌, ◌∙◌, refl, ap, Bool, true, false, List, [], ◌∷◌, Option, none, some, leb,
  if◌then◌else◌, arith, Bool-cases, inl, inr,
}
use oxlens_sfu.Link.Stun.Build.{SocketAddr}
use oxlens_sfu.Link.Paths.{PathKey, same_key, same_key-eq}
use oxlens_sfu.Link.Transport.{
  Pair, Transport, touch, touch_pair, find, in_time, alive_on, path_alive, send_ok,
}

-- The verified messages so far, each with the address from which it came and its time.
unfoldable pub touch_all : Transport → List (PathKey × ℕ) → Transport
touch_all t [] = t
touch_all t ((key, now) ∷ ts) = touch_all (touch_pair t key now) ts

-- When an address was last heard, if it was since the time that is given.
unfoldable pub last_heard : PathKey → Option ℕ → List (PathKey × ℕ) → Option ℕ
last_heard key since [] = since
last_heard key since ((k, now) ∷ ts) =
    last_heard key (if same_key k key then some now else since) ts

same_key_trans : (a b c : PathKey) → same_key a b ≡ true → same_key c b ≡ true → same_key a c ≡ true
same_key_trans a b c h k = cc (same_key-eq c b k, h)

shadowed :
    (b : Bool) (x y z : Option ℕ) → (if b then x else z) ≡ (if b then x else if b then y else z)
shadowed true x y z = refl
shadowed false x y z = refl

find-touch :
    (key k : PathKey) (now : ℕ) (ps : List Pair)
    → find key (touch k now ps) ≡ (if same_key k key then some now else find key ps)
unfolding find touch
find-touch key k now [] = refl
find-touch key k now (p ∷ ps) = elim (Bool-cases (same_key p.key k)) [
  | inl e ↦
      let d : same_key p.key key ≡ same_key k key =
        ap (λ a. same_key a key) (same_key-eq p.key k e) in
      rw (e, d) (shadowed (same_key k key) (some now) (some p.last_ms) (find key ps))
  | inr e ↦ elim (Bool-cases (same_key p.key key)) [
    | inl x ↦ elim (Bool-cases (same_key k key)) [
      | inl y ↦ cc (same_key_trans p.key key k x y)
      | inr y ↦ rw (e, x, y) refl
    ]
    | inr x ↦ rw (e, x) (find-touch key k now ps)
  ]
]

find-touch_all :
    (key : PathKey) (t : Transport) (ts : List (PathKey × ℕ))
    → find key (touch_all t ts).pairs ≡ last_heard key (find key t.pairs) ts
unfolding touch_all last_heard
find-touch_all key t [] = refl
find-touch_all key t ((k, now) ∷ ts) =
    find-touch_all key (touch_pair t k now) ts
    ∙ ap (λ o. last_heard key o ts) (unfold touch_pair in find-touch key k now t.pairs)

touch_all_path : (t : Transport) (ts : List (PathKey × ℕ)) → (touch_all t ts).path ≡ t.path
unfolding touch_all touch_pair
touch_all_path t [] = refl
touch_all_path t ((k, now) ∷ ts) = touch_all_path (touch_pair t k now) ts

timely :
    (now : ℕ) (key : PathKey) (heard : Option ℕ)
    → (if in_time now heard then some key else none)
      ≡ (elim heard [ none ↦ none | some last ↦ if leb now (last + 30000) then some key else none ])
unfolding in_time
timely now key none = refl
timely now key (some last) = ground arith

-- A connection that has heard verified messages from some addresses, and whose path is an address
-- over UDP, may be sent to just while that address was last heard at most 30 seconds ago.
pub send_ok-touch_all :
    (tcp_open : ℕ → Bool) (now : ℕ) (t : Transport) (ts : List (PathKey × ℕ)) (a : SocketAddr)
    → t.path ≡ some (PathKey.udp a)
    → t.pairs ≡ []
    → send_ok tcp_open now (touch_all t ts) ≡ (elim (last_heard (PathKey.udp a) none ts) [
      | none ↦ none
      | some last ↦ if leb now (last + 30000) then some (PathKey.udp a) else none
    ])
unfolding send_ok path_alive alive_on in_time find
send_ok-touch_all tcp_open now t ts a p q =
    let key = PathKey.udp a in
    let ps = (touch_all t ts).pairs in
    ap (λ w. if alive_on tcp_open now ps w then w else none) (touch_all_path t ts ∙ p)
    ∙ ap (λ o. if in_time now o then some key else none)
        (find-touch_all key t ts ∙ ap (λ l. last_heard key (find key l) ts) q)
    ∙ timely now key (last_heard key none ts)
