-- ===== src/Mesh/Session/Stream.antt =====
-- crates/oxmesh/src/session.rs: the reading loop over a stream of whole frames.
use oxlens_sfu.Base.{
  ℕ, zero, suc, ◌+◌, ◌/◌, ◌%◌, ◌≤◌, ◌<◌, ◌≡◌, ◌∙◌, refl, Bool, true, false, List, [], ◌∷◌, ◌++◌,
  Option, none, some, length, leb, ltb, All, arith, take-append, drop-append, length-append,
  from_be32,
}
use oxlens_sfu.Mesh.Wire.Decode.{decode}
use oxlens_sfu.Mesh.Wire.Cursor.{Bytes}
use oxlens_sfu.Mesh.Wire.Message.{Lane, CloseReason, Msg}
use oxlens_sfu.Mesh.Wire.Frames.{frame, Assembled, Reassembler, reassemble}
use oxlens_sfu.Mesh.Wire.Reassembly.{completed, push_all, lane_from-lane_code}
use oxlens_sfu.Mesh.Session.Reading.{
  SessEv, Read, read_body, read_frame, Look, ended, on_message, on_its_lane, on_assembled, round,
  read_loop,
}

word_read :
    (n : ℕ)
    → n < 65536
    → from_be32 (n / 16777216 % 256) (n / 65536 % 256) (n / 256 % 256) (n % 256) ≡ n
word_read n h = omega arith

pub read_frame-frame :
    (l : Lane) (flags : ℕ) (chunk rest : Bytes)
    → length chunk ≤ 16378
    → read_frame (frame l flags chunk ++ rest) ≡ Read.got l flags chunk rest
unfolding read_frame frame read_body on_its_lane
read_frame-frame l flags chunk rest h =
    let two : length chunk + 2 ≡ suc (suc (length chunk)) = omega arith in
    let n = word_read (length chunk + 2) (omega arith) ∙ two in
    let big : leb (suc (suc (length chunk))) 16380 ≡ true = ground arith in
    let small : leb 2 (suc (suc (length chunk))) ≡ true = ground arith in
    let there : leb (suc (suc (length chunk))) (suc (suc (length (chunk ++ rest)))) ≡ true =
      ground (arith, length-append chunk rest) in
    rw (n, big, small, there, take-append chunk rest, drop-append chunk rest, lane_from-lane_code l)
      refl

-- A frame of the protocol: its chunk is not longer than a frame has room for.
abbrev pub IsPiece : Lane × (ℕ × Bytes) → Type 0
IsPiece p = length p.1.1 ≤ 16378

-- The bytes of a sequence of frames.
unfoldable pub stream : List (Lane × (ℕ × Bytes)) → Bytes
stream [] = []
stream ((l, (f, c)) ∷ ps) = frame l f c ++ stream ps

-- The loop is neither stopped nor paused.
abbrev pub IsRunning : ℕ → Look → Type 0
IsRunning fence w = (w.stopped ≡ false) × (w.gap_ms ≤ fence) × (w.stopped_at_end ≡ false)

-- What is told of a body that was decoded.
unfoldable pub told : Option Msg → List SessEv → List SessEv
told none rest = SessEv.closed CloseReason.protocol ∷ []
told (some Msg.keep_alive) rest = rest
told (some m) rest = SessEv.msg m ∷ rest

on_message-told :
    (w : Look) (o : Option Msg) (rest : List SessEv)
    → w.stopped_at_end ≡ false
    → on_message w o rest ≡ told o rest
unfolding on_message told ended
on_message-told w none rest e = rw e refl
on_message-told w (some Msg.keep_alive) rest e = refl
on_message-told w (some m) rest e = refl

module _ (utf8 : Bytes → Bool) where
  -- What is told of the bodies that were completed, until one of them is not a message.
  unfoldable pub events : List (Lane × Option Bytes) → List SessEv
  events [] = SessEv.closed CloseReason.io ∷ []
  events ((l, none) ∷ xs) = SessEv.closed CloseReason.protocol ∷ []
  events ((l, some b) ∷ xs) = let rest = events xs in told (decode utf8 b) rest

  module _ (fence_ms : ℕ) (look : ℕ → Look) (running : (i : ℕ) → IsRunning fence_ms (look i)) where
    on_assembled-events :
        (i : ℕ) (l : Lane) (a : Assembled) (xs : List (Lane × Option Bytes))
        → on_assembled utf8 (look i) a (events xs) ≡ events (completed a (λ b. (l, b)) xs)
    unfolding on_assembled events completed ended
    on_assembled-events i l Assembled.partial xs = refl
    on_assembled-events i l Assembled.too_big xs = rw (running i).2 refl
    on_assembled-events i l (Assembled.done b) xs =
        on_message-told (look i) (decode utf8 b) (events xs) (running i).2

    pub read_loop-stream :
        (ps : List (Lane × (ℕ × Bytes))) (n i : ℕ) (asm : Reassembler)
        → All IsPiece ps
        → length ps < n
        → read_loop utf8 fence_ms look n i asm (stream ps) ≡ events (push_all asm ps)
    unfolding read_loop round stream push_all events
    read_loop-stream ps zero i asm h k = absurd (omega arith)
    read_loop-stream [] (suc n) i asm h k = unfold read_frame ended in rw (running i).2 refl
    read_loop-stream ((l, (f, c)) ∷ ps) (suc n) i asm (h, hs) k =
        let next = read_loop-stream ps n (suc i) (reassemble asm l f c).0 hs (omega arith) in
        let gap : ltb fence_ms (look i).gap_ms ≡ false = let g = (running i).1 in ground arith in
        rw (read_frame-frame l f c (stream ps) h, next)
          (simp ((running i).0, gap)
            (on_assembled-events i l (reassemble asm l f c).1
              (push_all (reassemble asm l f c).0 ps)))
