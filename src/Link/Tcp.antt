-- ===== src/Link/Tcp.antt =====
-- crates/oxsfud/src/link/tcp.rs: the framing of RFC 4571, and the loop of crates/oxsfud/src/fwd/rt.rs
-- over the frames of a connection.
pub mod Rounds
pub mod Stream
pub mod Out
pub mod Delivery
use oxlens_sfu.Base.{
  ℕ, zero, suc, ◌+◌, ◌==◌, List, [], ◌∷◌, ◌++◌, Option, none, some, length, take, drop, ltb, be16,
  from_be16, if◌then◌else◌,
}

abbrev pub Bytes : Type 0
Bytes = List ℕ

pub record Deframer : Type 0 where
  pub buf : Bytes

unfoldable pub push : Deframer → Bytes → Deframer
push d chunk = record d { buf = d.buf ++ chunk }

-- The loop of `next_frame` over the buffer: what is left of it, and the frame. A round without a
-- frame takes two bytes.
unfoldable pub next_loop : ℕ → Bytes → Bytes × Option Bytes
next_loop zero b = (b, none)
next_loop (suc k) [] = ([], none)
next_loop (suc k) (x ∷ []) = (x ∷ [], none)
next_loop (suc k) (x ∷ y ∷ r) =
    let n = from_be16 x y in
    let rest = next_loop k r in
    if ltb (length r) n
    then (x ∷ y ∷ r, none)
    else if n == 0
    then rest
    else (drop n r, some (take n r))

unfoldable pub next_frame : Deframer → Deframer × Option Bytes
next_frame d = let (b, f) = next_loop (length d.buf) d.buf in (record { buf = b }, f)

unfoldable pub frame : Bytes → Option Bytes
frame payload = if ltb 65535 (length payload) then none else some (be16 (length payload) ++ payload)

-- The frames that the receiving thread takes off a connection, `while let Some(f) =
-- c.de.next_frame()`, in at most as many rounds as there are bytes.
unfoldable pub frames_on :
    (Deframer → Deframer × List Bytes) → Deframer × Option Bytes → Deframer × List Bytes
frames_on loop (d, none) = (d, [])
frames_on loop (d, some f) = let (e, fs) = loop d in (e, f ∷ fs)

unfoldable pub frames_loop : ℕ → Deframer → Deframer × List Bytes
frames_loop zero d = (d, [])
frames_loop (suc k) d = frames_on (frames_loop k) (next_frame d)

-- A connection that is read as its chunks come: each is pushed, and then the frames are taken.
unfoldable pub read_all : Deframer → List Bytes → Deframer × List Bytes
read_all d [] = (d, [])
read_all d (c ∷ cs) =
    let (d1, fs) = frames_loop (length d.buf + length c) (push d c) in
    let (d2, gs) = read_all d1 cs in (d2, fs ++ gs)

-- What is written for a payload: nothing when it is too long for a frame.
unfoldable pub write : Option Bytes → Bytes → Bytes
write none out = out
write (some f) out = f ++ out

unfoldable pub write_all : List Bytes → Bytes
write_all [] = []
write_all (p ∷ ps) = write (frame p) (write_all ps)
