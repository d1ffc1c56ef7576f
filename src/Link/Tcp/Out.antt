-- ===== src/Link/Tcp/Out.antt =====
-- crates/oxsfud/src/fwd/rt.rs: the writing half of a TCP connection. What the socket answers to
-- each write is given; after the last answer it would block. The locks are never poisoned.
use oxlens_sfu.Base.{
  ℕ, ◌+◌, ◌==◌, Bool, true, false, ◌&&◌, List, [], ◌∷◌, ◌++◌, Option, none, some, length, take,
  drop, ltb, if◌then◌else◌,
}
use oxlens_sfu.Link.Tcp.{Bytes, frame}

abbrev pub send_buf : ℕ
send_buf = 65536

pub data Written : Type 0 where
  wrote : ℕ → Written
  would_block : Written
  failed : Written

pub record TcpOut : Type 0 where
  pub pending : Bytes
  pub is_open : Bool

-- The loop of `send`: the bytes that are left, those that the socket took, and whether no write
-- failed.
unfoldable pub write_loop : List Written → Bytes → Bytes × Bytes × Bool
write_loop [] b = (b, [], true)
write_loop (w ∷ ws) [] = ([], [], true)
write_loop (Written.would_block ∷ ws) (x ∷ b) = (x ∷ b, [], true)
write_loop (Written.failed ∷ ws) (x ∷ b) = (x ∷ b, [], false)
write_loop (Written.wrote n ∷ ws) (x ∷ b) =
    let (left, out, fine) = write_loop ws (drop n (x ∷ b)) in
    if n == 0 then (x ∷ b, [], true) else (left, take n (x ∷ b) ++ out, fine)

unfoldable pub send_frame : TcpOut → Option Bytes → List Written → TcpOut × Bytes × Bool
send_frame o none ws = (o, [], false)
send_frame o (some f) ws =
    let (left, out, fine) = write_loop ws (o.pending ++ f) in
    if ltb send_buf (length o.pending + length f)
    then (o, [], false)
    else (record { pending = left; is_open = o.is_open && fine }, out, fine)

-- The connection, the bytes that the socket took, and the result.
unfoldable pub send : TcpOut → Bytes → List Written → TcpOut × Bytes × Bool
send o payload ws = send_frame o (frame payload) ws

-- Sends one after the other: the bytes that the socket took, and the payloads that were accepted.
unfoldable pub send_all : TcpOut → List (Bytes × List Written) → TcpOut × Bytes × List Bytes
send_all o [] = (o, [], [])
send_all o ((p, ws) ∷ ss) =
    let (o1, out, fine) = send o p ws in
    let (o2, outs, ps) = send_all o1 ss in (o2, out ++ outs, if fine then p ∷ ps else ps)
