-- ===== src/Mesh/Session/Reading.antt =====
-- crates/oxmesh/src/session.rs: the frames that come from a peer. The bytes are all that the peer
-- sends before its connection ends.
use oxlens_sfu.Base.{
  ℕ, zero, suc, Bool, ◌&&◌, List, [], ◌∷◌, Option, none, some, length, take, drop, leb, ltb,
  from_be32, if◌then◌else◌,
}
use oxlens_sfu.Mesh.Wire.Decode.{decode}
use oxlens_sfu.Mesh.Wire.Cursor.{Bytes}
use oxlens_sfu.Mesh.Wire.Message.{Lane, CloseReason, Msg}
use oxlens_sfu.Mesh.Wire.Frames.{lane_from, Assembled, Reassembler, reassemble}

pub data SessEv : Type 0 where
  msg : Msg → SessEv
  closed : CloseReason → SessEv
  paused : SessEv

-- A frame that was read, and the bytes after it.
pub data Read : Type 0 where
  got : Lane → ℕ → Bytes → Bytes → Read
  failed : CloseReason → Read

unfoldable pub on_its_lane : Option Lane → ℕ → Bytes → Bytes → Read
on_its_lane none flags chunk rest = Read.failed CloseReason.protocol
on_its_lane (some l) flags chunk rest = Read.got l flags chunk rest

-- The body of a frame, which has two bytes at least.
unfoldable pub read_body : Bytes → Bytes → Read
read_body (x ∷ flags ∷ chunk) rest = on_its_lane (lane_from x) flags chunk rest
read_body _ rest = Read.failed CloseReason.io

unfoldable pub read_frame : Bytes → Read
read_frame (a ∷ b ∷ c ∷ d ∷ s) =
    let n = from_be32 a b c d in
    if leb 2 n && leb n 16380
    then (if leb n (length s) then read_body (take n s) (drop n s) else Read.failed CloseReason.io)
    else Read.failed CloseReason.protocol
read_frame _ = Read.failed CloseReason.io

-- What the loop sees when it has the frame of a round: the flag that stops it, and the time since
-- the last tick; and the flag again when the connection ends.
pub record Look : Type 0 where
  pub stopped : Bool
  pub gap_ms : ℕ
  pub stopped_at_end : Bool

unfoldable pub ended : Look → CloseReason → List SessEv
ended w e = if w.stopped_at_end then [] else SessEv.closed e ∷ []

-- A message that was decoded, before the next rounds.
unfoldable pub on_message : Look → Option Msg → List SessEv → List SessEv
on_message w none next = ended w CloseReason.protocol
on_message w (some Msg.keep_alive) next = next
on_message w (some m) next = SessEv.msg m ∷ next

unfoldable pub on_assembled : (Bytes → Bool) → Look → Assembled → List SessEv → List SessEv
on_assembled utf8 w Assembled.partial next = next
on_assembled utf8 w Assembled.too_big next = ended w CloseReason.protocol
on_assembled utf8 w (Assembled.done b) next = on_message w (decode utf8 b) next

-- One round of the loop, with the rounds after it.
unfoldable pub round :
    (Bytes → Bool)
    → ℕ
    → Look
    → Reassembler
    → Read
    → (Reassembler → Bytes → List SessEv)
    → List SessEv
round utf8 fence_ms w asm (Read.failed e) next = ended w e
round utf8 fence_ms w asm (Read.got l flags chunk rest) next =
    let (asm', a) = reassemble asm l flags chunk in
    if w.stopped
    then []
    else if ltb fence_ms w.gap_ms
    then SessEv.paused ∷ []
    else on_assembled utf8 w a (next asm' rest)

module _ (utf8 : Bytes → Bool) (fence_ms : ℕ) (look : ℕ → Look) where
  -- `read_loop` from round `i` on, in as many rounds as the count. Each round reads six bytes at
  -- least.
  unfoldable pub read_loop : ℕ → ℕ → Reassembler → Bytes → List SessEv
  read_loop zero i asm s = []
  read_loop (suc n) i asm s = round utf8 fence_ms (look i) asm (read_frame s) (read_loop n (suc i))
