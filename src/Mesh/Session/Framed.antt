-- ===== src/Mesh/Session/Framed.antt =====
-- crates/oxmesh/src/session.rs: the frames of messages, taken apart again.
use oxlens_sfu.Base.{
  ℕ, zero, suc, ◌≤◌, ◌==◌, ◌≡◌, ◌∙◌, refl, sym, ap, Bool, true, false, List, [], ◌∷◌, ◌++◌, map,
  length, take, drop, All, arith, if◌then◌else◌, Bool-cases, if_cases, inl, inr, ==_iff,
}
use mathlib.Core.Path.{subst}
use mathlib.Core.List.{append-nil, map-append}
use oxlens_sfu.Mesh.Wire.Cursor.{Bytes}
use oxlens_sfu.Mesh.Wire.Message.{Lane, Msg, lane, encode}
use oxlens_sfu.Mesh.Wire.Frames.{lane_code, frame, frames, chunks, flagged, pieces}
use oxlens_sfu.Mesh.Wire.Reassembly.{of_lane, joined, lane_code_injective}
use oxlens_sfu.Mesh.Session.Outbox.{Push, Outbox, push}
use oxlens_sfu.Mesh.Session.Reading.{Read, read_frame}
use oxlens_sfu.Mesh.Session.Stream.{read_frame-frame, IsPiece, stream}
use oxlens_sfu.Mesh.Session.Order.{Act, after_act, accepted, accepted_act, if_queued}

-- The flags and the chunk of a frame.
unfoldable pub piece_of : Read → ℕ × Bytes
piece_of (Read.got l f c rest) = (f, c)
piece_of (Read.failed e) = (0, [])

unfoldable pub unframed : Bytes → ℕ × Bytes
unframed b = piece_of (read_frame b)

unframed-frame : (l : Lane) (f : ℕ) (c : Bytes) → length c ≤ 16378 → unframed (frame l f c) ≡ (f, c)
unfolding unframed piece_of
unframed-frame l f c h =
    ap piece_of (ap read_frame (sym (append-nil (frame l f c))) ∙ read_frame-frame l f c [] h)

unfoldable pub IsFrameOf : Lane → Bytes → Type 0
IsFrameOf l b = (frame l (unframed b).0 (unframed b).1 ≡ b) × (length (unframed b).1 ≤ 16378)

frame-IsFrameOf : (l : Lane) (f : ℕ) (c : Bytes) → length c ≤ 16378 → IsFrameOf l (frame l f c)
unfolding IsFrameOf
frame-IsFrameOf l f c h = let e = unframed-frame l f c h in rw e (refl, h)

-- A sequence of frames as it is read.
unfoldable pub pieces_of : List (Lane × Bytes) → List (Lane × (ℕ × Bytes))
pieces_of fs = map (λ p. (p.0, unframed p.1)) fs

pub stream-pieces_of :
    (fs : List (Lane × Bytes))
    → All (λ p. IsFrameOf p.0 p.1) fs
    → (stream (pieces_of fs) ≡ joined (map (λ p. p.1) fs)) × All IsPiece (pieces_of fs)
unfolding stream pieces_of joined IsFrameOf
stream-pieces_of [] h = (refl, _)
stream-pieces_of ((l, b) ∷ fs) ((e, s), h) =
    let (d, t) = stream-pieces_of fs h in (rw (e, d) refl, (s, t))

pub of_lane-pieces_of :
    (l : Lane) (fs : List (Lane × Bytes)) → of_lane l (pieces_of fs) ≡ map unframed (of_lane l fs)
unfolding of_lane pieces_of
of_lane-pieces_of l [] = refl
of_lane-pieces_of l ((k, b) ∷ fs) = elim (Bool-cases (lane_code l == lane_code k)) [
  | inl e ↦ rw (e, of_lane-pieces_of l fs) refl
  | inr e ↦ rw (e, of_lane-pieces_of l fs) refl
]

All-tail :
    {A : Type 0} (Q : A → Type 0) (b : Bool) (a : A) (xs : List A)
    → All Q (if b then a ∷ xs else xs)
    → All Q xs
All-tail Q true a xs h = h.1
All-tail Q false a xs h = h

-- What holds of the elements of every lane holds of all elements.
pub All-lanes :
    {A : Type 0} (P : Lane → A → Type 0) (xs : List (Lane × A))
    → ((l : Lane) → All (P l) (of_lane l xs))
    → All (λ p. P p.0 p.1) xs
unfolding of_lane
All-lanes P [] h = _
All-lanes P ((k, a) ∷ xs) h = (
  (subst (λ b. All (P k) (if b then a ∷ of_lane k xs else of_lane k xs))
      ((==_iff (lane_code k) (lane_code k)).1 refl) (h k)).0,
  All-lanes P xs (λ l. All-tail (P l) (lane_code l == lane_code k) a (of_lane l xs) (h l)),
)

pub All-of_lane :
    (l : Lane) (ms : List (Lane × Msg))
    → All (λ p. lane p.1 ≡ p.0) ms
    → All (λ m. lane m ≡ l) (of_lane l ms)
unfolding of_lane
All-of_lane l [] h = _
All-of_lane l ((k, m) ∷ ms) (e, h) =
    if_cases (λ ms. All (λ m. lane m ≡ l) ms) (lane_code l == lane_code k)
      (λ d. (e ∙ sym (lane_code_injective l k d), All-of_lane l ms h)) (λ _. All-of_lane l ms h)

if_queued_lanes :
    (p : Push) (m : Msg) (xs : List (Lane × Msg))
    → All (λ x. lane x.1 ≡ x.0) xs
    → All (λ x. lane x.1 ≡ x.0) (if_queued p m ++ xs)
unfolding if_queued
if_queued_lanes Push.queued m xs h = (refl, h)
if_queued_lanes Push.dropped m xs h = h
if_queued_lanes Push.full m xs h = h
if_queued_lanes Push.closed m xs h = h

-- Accepted messages stand with their lanes.
pub accepted_lanes : (acts : List Act) (o : Outbox) → All (λ p. lane p.1 ≡ p.0) (accepted acts o)
unfolding accepted accepted_act
accepted_lanes [] o = _
accepted_lanes (Act.write ∷ acts) o = accepted_lanes acts (after_act Act.write o)
accepted_lanes (Act.send m ∷ acts) o =
    if_queued_lanes (push m o).1 m _ (accepted_lanes acts (after_act (Act.send m) o))

length-take_bound : (n : ℕ) (b : Bytes) → length (take n b) ≤ n
length-take_bound zero b = omega arith
length-take_bound (suc n) [] = omega arith
length-take_bound (suc n) (x ∷ b) = omega (arith, length-take_bound n b)

abbrev IsSmall : ℕ × Bytes → Type 0
IsSmall p = length p.1 ≤ 16378

flagged-IsSmall : (cs : List Bytes) → All (λ c. length c ≤ 16378) cs → All IsSmall (flagged cs)
unfolding flagged
flagged-IsSmall [] h = _
flagged-IsSmall (c ∷ []) h = h
flagged-IsSmall (c ∷ d ∷ cs) (h, hs) = (h, flagged-IsSmall (d ∷ cs) hs)

chunks-IsSmall : (n : ℕ) (b : Bytes) → All (λ c. length c ≤ 16378) (chunks 16378 n b)
unfolding chunks
chunks-IsSmall zero b = _
chunks-IsSmall (suc n) [] = _
chunks-IsSmall (suc n) (x ∷ b) =
    (length-take_bound 16378 (x ∷ b), chunks-IsSmall n (drop 16378 (x ∷ b)))

pieces-IsSmall : (b : Bytes) → All IsSmall (pieces 16378 b)
unfolding pieces
pieces-IsSmall [] = (omega arith, _)
pieces-IsSmall (x ∷ b) =
    flagged-IsSmall (chunks 16378 (length (x ∷ b)) (x ∷ b))
      (chunks-IsSmall (length (x ∷ b)) (x ∷ b))

framed : Lane → List (ℕ × Bytes) → List Bytes
framed l ps = map (λ p. frame l p.0 p.1) ps

framed-IsFrameOf :
    (l : Lane) (ps : List (ℕ × Bytes)) → All IsSmall ps → All (IsFrameOf l) (framed l ps)
unfolding framed
framed-IsFrameOf l [] h = _
framed-IsFrameOf l ((f, c) ∷ ps) (h, hs) = (frame-IsFrameOf l f c h, framed-IsFrameOf l ps hs)

map-unframed : (l : Lane) (ps : List (ℕ × Bytes)) → All IsSmall ps → map unframed (framed l ps) ≡ ps
unfolding framed
map-unframed l [] h = refl
map-unframed l ((f, c) ∷ ps) (h, hs) = rw (unframed-frame l f c h, map-unframed l ps hs) refl

All-append : {A : Type 0} (Q : A → Type 0) (xs ys : List A) → All Q xs → All Q ys → All Q (xs ++ ys)
All-append Q [] ys h k = k
All-append Q (x ∷ xs) ys (h, hs) k = (h, All-append Q xs ys hs k)

pub All-joined-frames :
    (l : Lane) (ms : List Msg)
    → All (λ m. lane m ≡ l) ms
    → All (IsFrameOf l) (joined (map (λ m. (frames m).1) ms))
unfolding joined frames framed
All-joined-frames l [] h = _
All-joined-frames l (m ∷ ms) (e, h) =
    All-append (IsFrameOf l) (framed (lane m) (pieces 16378 (encode m))) _
      (subst (λ k. All (IsFrameOf k) (framed (lane m) (pieces 16378 (encode m)))) e
        (framed-IsFrameOf (lane m) (pieces 16378 (encode m)) (pieces-IsSmall (encode m))))
      (All-joined-frames l ms h)

pub unframed-joined :
    (ms : List Msg)
    → map unframed (joined (map (λ m. (frames m).1) ms))
      ≡ joined (map (λ b. pieces 16378 b) (map encode ms))
unfolding joined frames framed
unframed-joined [] = refl
unframed-joined (m ∷ ms) =
    map-append unframed (framed (lane m) (pieces 16378 (encode m))) _
    ∙ rw
        (
          map-unframed (lane m) (pieces 16378 (encode m)) (pieces-IsSmall (encode m)),
          unframed-joined ms,
        )
        refl
