-- ===== src/Mesh/Session/Delivery.antt =====
-- crates/oxmesh/src/session.rs: what an outbox writes, read at the other end.
use oxlens_sfu.Base.{
  ℕ, suc, ◌<◌, ◌==◌, ◌≡◌, ◌∙◌, refl, sym, ap, Bool, List, [], ◌∷◌, ◌++◌, map, Option, none, some,
  length, All, arith, Bool-cases, if_cases, inl, inr,
}
use mathlib.Core.Path.{subst}
use mathlib.Core.Option.{none-ne-some}
use mathlib.Core.Path.{subst}
use mathlib.Core.List.{append-nil}
use oxlens_sfu.Mesh.Wire.Decode.{decode}
use oxlens_sfu.Mesh.Wire.Cursor.{Bytes}
use oxlens_sfu.Mesh.Wire.Message.{Lane, Msg, encode}
use oxlens_sfu.Mesh.Wire.Frames.{lane_code, frames, empty_parts}
use oxlens_sfu.Mesh.Wire.Reassembly.{of_lane, joined, push_all, IsShort, push_all_bodies}
use oxlens_sfu.Mesh.Session.Outbox.{Outbox, new_outbox}
use oxlens_sfu.Mesh.Session.Reading.{Look, read_loop}
use oxlens_sfu.Mesh.Session.Stream.{IsPiece, stream, IsRunning, events, read_loop-stream}
use oxlens_sfu.Mesh.Session.Framed.{
  unframed, IsFrameOf, pieces_of, stream-pieces_of, of_lane-pieces_of, All-lanes, All-of_lane,
  accepted_lanes, All-joined-frames, unframed-joined,
}
use oxlens_sfu.Mesh.Wire.RoundTrip.{Fits, decode-encode-Fits}
use oxlens_sfu.Mesh.Session.Reading.{SessEv}
use oxlens_sfu.Mesh.Wire.Message.{CloseReason}
use oxlens_sfu.Mesh.Session.Stream.{told}
use oxlens_sfu.Mesh.Session.Order.{Act, after, written, accepted, written_in_order}

-- The bytes that a history writes, and what its frames complete.
unfoldable pub written_bytes : List Act → Outbox → Bytes
written_bytes acts o = joined (map (λ p. p.1) (written acts o))

unfoldable pub outcomes : List Act → Outbox → List (Lane × Option Bytes)
outcomes acts o = push_all empty_parts (pieces_of (written acts o))

-- Every lane was written to its end.
unfoldable pub Drained : List Act → ℕ → Type 0
Drained acts total = (l : Lane) → (after acts (new_outbox total)).q l ≡ []

written-frames :
    (acts : List Act) (total : ℕ) (l : Lane)
    → Drained acts total
    → of_lane l (written acts (new_outbox total))
      ≡ joined (map (λ m. (frames m).1) (of_lane l (accepted acts (new_outbox total))))
unfolding Drained
written-frames acts total l d =
    let e = written_in_order l acts (new_outbox total) (unfold new_outbox in refl) in
    sym (append-nil _)
    ∙ ap (λ q. of_lane l (written acts (new_outbox total)) ++ q) (sym (d l))
    ∙ e
    ∙ (unfold new_outbox in refl)

module _ (utf8 : Bytes → Bool) where
  -- A message that the other end can be told: its parts fit their types, and its encoding the limit.
  abbrev pub IsSendable : Lane × Msg → Type 0
  IsSendable p = Fits utf8 p.1 × IsShort (encode p.1)

  unfoldable pub message_in : Option Msg → Msg
  message_in none = Msg.keep_alive
  message_in (some m) = m

  unfoldable pub decoded : Option Bytes → Option Msg
  decoded none = none
  decoded (some b) = decode utf8 b

  -- The messages that a history delivers, each with its lane.
  unfoldable pub delivered : List Act → Outbox → List (Lane × Msg)
  delivered acts o = map (λ p. (p.0, message_in (decoded p.1))) (outcomes acts o)

  -- What is told of messages, and then the end of the connection.
  unfoldable pub told_all : List (Lane × Msg) → List SessEv
  told_all [] = SessEv.closed CloseReason.io ∷ []
  told_all ((l, m) ∷ ms) = told (some m) (told_all ms)

  IsDecoded : Option Bytes → Type 0
  IsDecoded b = decoded b ≡ some (message_in (decoded b))

  events-told_all :
      (xs : List (Lane × Option Bytes))
      → All (λ p. IsDecoded p.1) xs
      → events utf8 xs ≡ told_all (map (λ p. (p.0, message_in (decoded p.1))) xs)
  unfolding events told_all IsDecoded decoded
  events-told_all [] h = refl
  events-told_all ((l, none) ∷ xs) (h, hs) = absurd (none-ne-some _ h)
  events-told_all ((l, some b) ∷ xs) (h, hs) =
      rw (events-told_all xs hs)
        (ap (λ m. told m (told_all (map (λ p. (p.0, message_in (decoded p.1))) xs))) h)

  of_lane-map :
      (f : Option Bytes → Msg) (l : Lane) (xs : List (Lane × Option Bytes))
      → of_lane l (map (λ p. (p.0, f p.1)) xs) ≡ map f (of_lane l xs)
  unfolding of_lane
  of_lane-map f l [] = refl
  of_lane-map f l ((k, b) ∷ xs) = elim (Bool-cases (lane_code l == lane_code k)) [
    | inl e ↦ rw (e, of_lane-map f l xs) refl
    | inr e ↦ rw (e, of_lane-map f l xs) refl
  ]

  -- The same of a message without its lane.
  IsSent : Msg → Type 0
  IsSent m = Fits utf8 m × IsShort (encode m)

  IsSent-of_lane :
      (l : Lane) (ms : List (Lane × Msg)) → All IsSendable ms → All IsSent (of_lane l ms)
  unfolding of_lane IsSent
  IsSent-of_lane l [] h = _
  IsSent-of_lane l ((k, m) ∷ ms) (e, h) =
      if_cases (λ xs. All IsSent xs) (lane_code l == lane_code k) (λ _. (e, IsSent-of_lane l ms h))
        (λ _. IsSent-of_lane l ms h)

  IsShort-encodings : (ms : List Msg) → All IsSent ms → All IsShort (map encode ms)
  unfolding IsSent
  IsShort-encodings [] h = _
  IsShort-encodings (m ∷ ms) ((f, s), h) = (s, IsShort-encodings ms h)

  decoded-encodings :
      (ms : List Msg)
      → All IsSent ms
      → All IsDecoded (map some (map encode ms))
        × (map (λ b. message_in (decoded b)) (map some (map encode ms)) ≡ ms)
  unfolding IsSent IsDecoded decoded message_in
  decoded-encodings [] h = (_, refl)
  decoded-encodings (m ∷ ms) ((f, s), h) =
      let (a, e) = decoded-encodings ms h in
      let d = decode-encode-Fits utf8 m f in ((rw d refl, a), rw (d, e) refl)

  module _ (acts : List Act) (total : ℕ) where
    lane_outcomes :
        (l : Lane)
        → Drained acts total
        → All IsSendable (accepted acts (new_outbox total))
        → of_lane l (outcomes acts (new_outbox total))
          ≡ map some (map encode (of_lane l (accepted acts (new_outbox total))))
    unfolding outcomes
    lane_outcomes l d h =
        push_all_bodies l _ (pieces_of (written acts (new_outbox total)))
          (IsShort-encodings _ (IsSent-of_lane l _ h))
          (of_lane-pieces_of l (written acts (new_outbox total))
            ∙ ap (map unframed) (written-frames acts total l d)
            ∙ unframed-joined (of_lane l (accepted acts (new_outbox total))))

    framed_stream :
        Drained acts total
        → (stream (pieces_of (written acts (new_outbox total)))
            ≡ written_bytes acts (new_outbox total))
          × All IsPiece (pieces_of (written acts (new_outbox total)))
    unfolding written_bytes
    framed_stream d = stream-pieces_of (written acts (new_outbox total)) (
        All-lanes IsFrameOf (written acts (new_outbox total)) (λ l.
          subst (All (IsFrameOf l)) (sym (written-frames acts total l d))
            (All-joined-frames l _ (All-of_lane l _ (accepted_lanes acts (new_outbox total))))))

    outcomes-IsDecoded :
        Drained acts total
        → All IsSendable (accepted acts (new_outbox total))
        → All (λ p. IsDecoded p.1) (outcomes acts (new_outbox total))
    outcomes-IsDecoded d h =
        All-lanes (λ l b. IsDecoded b) (outcomes acts (new_outbox total))
          (λ l.
            subst (All IsDecoded) (sym (lane_outcomes l d h))
              (decoded-encodings _ (IsSent-of_lane l _ h)).0)

    length-pieces_of : (fs : List (Lane × Bytes)) → length (pieces_of fs) ≡ length fs
    unfolding pieces_of
    length-pieces_of [] = refl
    length-pieces_of (f ∷ fs) = ap suc (length-pieces_of fs)

    -- For any test of UTF-8, any history of pushes and of batches that starts with a new outbox and
    -- leaves every lane empty, in which each message that was accepted fits its types and encodes to
    -- at most 64 MiB, and a reading loop that is neither stopped nor paused, with more rounds than
    -- frames: the loop tells exactly the delivered messages, but for the keep-alives, and then that
    -- the connection ended; and on each lane the delivered messages are the accepted ones, in order.
    pub read_loop-written_bytes :
        (fence_ms : ℕ) (look : ℕ → Look) (n : ℕ) (l : Lane)
        → ((i : ℕ) → IsRunning fence_ms (look i))
        → Drained acts total
        → All IsSendable (accepted acts (new_outbox total))
        → length (written acts (new_outbox total)) < n
        → (read_loop utf8 fence_ms look n 0 empty_parts (written_bytes acts (new_outbox total))
            ≡ told_all (delivered acts (new_outbox total)))
          × (of_lane l (delivered acts (new_outbox total))
              ≡ of_lane l (accepted acts (new_outbox total)))
    unfolding delivered outcomes
    read_loop-written_bytes fence_ms look n l running d h k =
        let (e, small) = framed_stream d in
        (
          ap (read_loop utf8 fence_ms look n 0 empty_parts) (sym e)
              ∙ read_loop-stream utf8 fence_ms look running
                  (pieces_of (written acts (new_outbox total))) n 0 empty_parts small
                  (omega (arith, length-pieces_of (written acts (new_outbox total))))
              ∙ events-told_all (outcomes acts (new_outbox total)) (outcomes-IsDecoded d h),
          of_lane-map (λ b. message_in (decoded b)) l (outcomes acts (new_outbox total))
              ∙ ap (map (λ b. message_in (decoded b))) (lane_outcomes l d h)
              ∙ (decoded-encodings _ (IsSent-of_lane l _ h)).1,
        )
