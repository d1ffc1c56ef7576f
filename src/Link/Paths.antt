-- ===== src/Link/Paths.antt =====
-- crates/oxsfud/src/link/mod.rs: the addresses of clients, compared as the code compares them.
use oxlens_sfu.Base.{ℕ, ◌==◌, ◌≡◌, refl, ap, Bool, true, false, ◌&&◌, [], ◌∷◌, arith}
use oxlens_sfu.Link.Tcp.{Bytes}
use oxlens_sfu.Link.Stun.Build.{SocketAddr}

pub data PathKey : Type 0 where
  udp : SocketAddr → PathKey
  tcp : ℕ → PathKey

unfoldable pub same_bytes : Bytes → Bytes → Bool
same_bytes [] [] = true
same_bytes (x ∷ a) (y ∷ b) = x == y && same_bytes a b
same_bytes _ _ = false

unfoldable pub same_addr : SocketAddr → SocketAddr → Bool
same_addr (SocketAddr.v4 a p) (SocketAddr.v4 b q) = a == b && p == q
same_addr (SocketAddr.v6 a p f s) (SocketAddr.v6 b q g t) =
    same_bytes a b && (p == q && (f == g && s == t))
same_addr _ _ = false

unfoldable pub same_key : PathKey → PathKey → Bool
same_key (PathKey.udp a) (PathKey.udp b) = same_addr a b
same_key (PathKey.tcp a) (PathKey.tcp b) = a == b
same_key _ _ = false

pub same_bytes-eq : (a b : Bytes) → same_bytes a b ≡ true → a ≡ b
unfolding same_bytes
same_bytes-eq [] [] h = refl
same_bytes-eq [] (y ∷ b) h = cc
same_bytes-eq (x ∷ a) [] h = cc
same_bytes-eq (x ∷ a) (y ∷ b) h = ground (arith, same_bytes-eq a b)

pub same_bytes_refl : (a : Bytes) → same_bytes a a ≡ true
unfolding same_bytes
same_bytes_refl [] = refl
same_bytes_refl (x ∷ a) = ground (arith, same_bytes_refl a)

same_addr-eq : (a b : SocketAddr) → same_addr a b ≡ true → a ≡ b
unfolding same_addr
same_addr-eq (SocketAddr.v4 a p) (SocketAddr.v4 b q) h = ground arith
same_addr-eq (SocketAddr.v4 a p) (SocketAddr.v6 b q g t) h = cc
same_addr-eq (SocketAddr.v6 a p f s) (SocketAddr.v4 b q) h = cc
same_addr-eq (SocketAddr.v6 a p f s) (SocketAddr.v6 b q g t) h = ground (arith, same_bytes-eq a b)

same_addr_refl : (a : SocketAddr) → same_addr a a ≡ true
unfolding same_addr
same_addr_refl (SocketAddr.v4 a p) = ground arith
same_addr_refl (SocketAddr.v6 a p f s) = ground (arith, same_bytes_refl a)

pub same_key-eq : (a b : PathKey) → same_key a b ≡ true → a ≡ b
unfolding same_key
same_key-eq (PathKey.udp a) (PathKey.udp b) h = ap PathKey.udp (same_addr-eq a b h)
same_key-eq (PathKey.udp a) (PathKey.tcp b) h = cc
same_key-eq (PathKey.tcp a) (PathKey.udp b) h = cc
same_key-eq (PathKey.tcp a) (PathKey.tcp b) h = ground arith

pub same_key_refl : (a : PathKey) → same_key a a ≡ true
unfolding same_key
same_key_refl (PathKey.udp a) = same_addr_refl a
same_key_refl (PathKey.tcp a) = ground arith
