-- ===== src/Mesh/Session/Order.antt =====
-- crates/oxmesh/src/session.rs: histories of an outbox, in which messages are pushed and batches
-- are written.
use oxlens_sfu.Base.{
  ℕ, zero, suc, ◌+◌, ◌==◌, ◌≡◌, ◌∙◌, refl, sym, ap, List, [], ◌∷◌, ◌++◌, map, Option, none, some,
  length, ltb, if◌then◌else◌, if_cases, Bool-cases, inl, inr,
}
use mathlib.Core.Path.{subst}
use mathlib.Core.List.{append_assoc, append-nil, map-append}
use oxlens_sfu.Mesh.Wire.Cursor.{Bytes}
use oxlens_sfu.Mesh.Wire.Message.{Lane, Msg, lane}
use oxlens_sfu.Mesh.Wire.Frames.{lane_code, frames}
use oxlens_sfu.Mesh.Wire.Reassembly.{of_lane, joined, lane_code_injective}
use oxlens_sfu.Mesh.Session.Outbox.{
  Push, Queues, Outbox, Pop, cap, over, set_queue, refuse, enqueue, push_frames, push, front,
  pop_front, write_batch, taken, fill, depth, batch, pop_as, pop,
}

Fronts : Lane → Queues → Option (Lane × Bytes × Queues) → Type 0
Fronts k q none = Unit {0}
Fronts k q (some (l, f, q')) = q k ≡ (if lane_code k == lane_code l then f ∷ q' k else q' k)

front-Fronts :
    (k l : Lane) (q : Queues) (other : Option (Lane × Bytes × Queues)) (xs : List Bytes)
    → q l ≡ xs
    → Fronts k q other
    → Fronts k q (front l xs q other)
unfolding Fronts front set_queue
front-Fronts k l q other [] e h = h
front-Fronts k l q other (f ∷ fs) e h = elim (Bool-cases (lane_code k == lane_code l)) [
  | inl s ↦ rw s (ap q (lane_code_injective k l s) ∙ e)
  | inr s ↦ rw s refl
]

pop_front-Fronts : (k : Lane) (q : Queues) → Fronts k q (pop_front q)
unfolding Fronts pop_front
pop_front-Fronts k q = front-Fronts k _ q _ (q Lane.control) refl (
    front-Fronts k _ q _ (q Lane.declare) refl (
      front-Fronts k _ q _ (q Lane.request) refl
        (front-Fronts k _ q none (q Lane.data_lane) refl _)))

taken_order :
    (k : Lane) (size : ℕ) (q : Queues) (o : Option (Lane × Bytes × Queues))
    (next : ℕ → Queues → Queues × List (Lane × Bytes))
    → Fronts k q o
    → ((s : ℕ) (p : Queues) → of_lane k (next s p).1 ++ (next s p).0 k ≡ p k)
    → of_lane k (taken size q o next).1 ++ (taken size q o next).0 k ≡ q k
unfolding taken of_lane Fronts
taken_order k size q none next h ih = refl
taken_order k size q (some (l, f, q')) next h ih = elim (Bool-cases (lane_code k == lane_code l)) [
  | inl s ↦ rw (h, s) (ap (λ b. f ∷ b) (ih (size + length f) q'))
  | inr s ↦ rw (h, s) (ih (size + length f) q')
]

-- What is taken from a lane, and what is left, is what was queued.
fill_order :
    (k : Lane) (n size : ℕ) (q : Queues) → of_lane k (fill n size q).1 ++ (fill n size q).0 k ≡ q k
unfolding fill of_lane
fill_order k zero size q = refl
fill_order k (suc n) size q = elim (Bool-cases (ltb size write_batch)) [
  | inl e ↦
      rw e (taken_order k size q (pop_front q) (fill n) (pop_front-Fronts k q) (fill_order k n))
  | inr e ↦ rw e refl
]

-- A message is pushed, or a batch is taken and written.
pub data Act : Type 0 where
  send : Msg → Act
  write : Act

-- What the taking of a batch writes.
unfoldable pub frames_of : Pop → List (Lane × Bytes)
frames_of (Pop.frames_out fs) = fs
frames_of Pop.empty = []
frames_of (Pop.close_with c) = []

unfoldable pub after_act : Act → Outbox → Outbox
after_act (Act.send m) o = (push m o).0
after_act Act.write o = (pop o).0

unfoldable pub after : List Act → Outbox → Outbox
after [] o = o
after (a ∷ acts) o = after acts (after_act a o)

unfoldable pub written_act : Act → Outbox → List (Lane × Bytes)
written_act (Act.send m) o = []
written_act Act.write o = frames_of (pop o).1

-- The frames that a history writes.
unfoldable pub written : List Act → Outbox → List (Lane × Bytes)
written [] o = []
written (a ∷ acts) o = written_act a o ++ written acts (after_act a o)

unfoldable pub if_queued : Push → Msg → List (Lane × Msg)
if_queued Push.queued m = (lane m, m) ∷ []
if_queued _ m = []

unfoldable pub accepted_act : Act → Outbox → List (Lane × Msg)
accepted_act (Act.send m) o = if_queued (push m o).1 m
accepted_act Act.write o = []

-- The messages that a history queues, each with its lane.
unfoldable pub accepted : List Act → Outbox → List (Lane × Msg)
accepted [] o = []
accepted (a ∷ acts) o = accepted_act a o ++ accepted acts (after_act a o)

frames_queued : List Msg → List Bytes
frames_queued ms = joined (map (λ m. (frames m).1) ms)

Opened : Outbox → Type 0
Opened o = o.closing ≡ none

-- What a lane holds after an action, with what the action took from it and put into it.
Kept : Lane → Outbox → Outbox → List (Lane × Bytes) → List (Lane × Msg) → Type 0
Kept k o o' fs ms = (Opened o') × (of_lane k fs ++ o'.q k ≡ o.q k ++ frames_queued (of_lane k ms))

refuse-Kept :
    (k l : Lane) (m : Msg) (o : Outbox)
    → Opened o
    → Kept k o (refuse l o).0 [] (if_queued (refuse l o).1 m)
unfolding Kept Opened refuse if_queued of_lane frames_queued joined
refuse-Kept k Lane.control m o h = (h, sym (append-nil (o.q k)))
refuse-Kept k Lane.declare m o h = (h, sym (append-nil (o.q k)))
refuse-Kept k Lane.request m o h = (h, sym (append-nil (o.q k)))
refuse-Kept k Lane.data_lane m o h = (h, sym (append-nil (o.q k)))

enqueue-Kept :
    (k : Lane) (m : Msg) (o : Outbox)
    → Opened o
    → Kept k o (enqueue (lane m) (frames m).1 o) [] (if_queued Push.queued m)
unfolding Kept Opened enqueue if_queued of_lane set_queue frames_queued joined
enqueue-Kept k m o h = (
  h,
  elim (Bool-cases (lane_code k == lane_code (lane m))) [
    | inl e ↦ rw (e, lane_code_injective k (lane m) e, append-nil) refl
    | inr e ↦ rw (e, append-nil) refl
  ],
)

push_frames-Kept :
    (k : Lane) (m : Msg) (o : Outbox)
    → Opened o
    → Kept k o
        (push_frames (lane m) (frames m).1 none o).0
        []
        (if_queued (push_frames (lane m) (frames m).1 none o).1 m)
unfolding push_frames
push_frames-Kept k m o h =
    if_cases (λ (r : Outbox × Push). Kept k o r.0 [] (if_queued r.1 m))
      (over (cap (lane m)) (o.q (lane m)) (frames m).1) (λ _. refuse-Kept k (lane m) m o h)
      (λ _. enqueue-Kept k m o h)

frames_of-batch : (fs : List (Lane × Bytes)) → frames_of (batch fs) ≡ fs
unfolding frames_of batch
frames_of-batch [] = refl
frames_of-batch (f ∷ fs) = refl

pop_as-Kept : (k : Lane) (o : Outbox) → Kept k o (pop_as none o).0 (frames_of (pop_as none o).1) []
unfolding Kept Opened pop_as of_lane frames_queued joined
pop_as-Kept k o = (
  refl,
  rw (frames_of-batch (fill (depth o.q) 0 o.q).1, append-nil) (fill_order k (depth o.q) 0 o.q),
)

act-Kept :
    (k : Lane) (a : Act) (o : Outbox)
    → Opened o
    → Kept k o (after_act a o) (written_act a o) (accepted_act a o)
unfolding Opened after_act written_act accepted_act push pop frames
act-Kept k (Act.send m) o h =
    subst
      (λ c.
        Kept k o (push_frames (lane m) (frames m).1 c o).0 []
          (if_queued (push_frames (lane m) (frames m).1 c o).1 m))
      (sym h) (push_frames-Kept k m o h)
act-Kept k Act.write o h =
    subst (λ c. Kept k o (pop_as c o).0 (frames_of (pop_as c o).1) []) (sym h) (pop_as-Kept k o)

of_lane-append :
    {A : Type 0} (l : Lane) (xs ys : List (Lane × A))
    → of_lane l (xs ++ ys) ≡ of_lane l xs ++ of_lane l ys
unfolding of_lane
of_lane-append l [] ys = refl
of_lane-append l ((k, a) ∷ xs) ys = elim (Bool-cases (lane_code l == lane_code k)) [
  | inl e ↦ rw (e, of_lane-append l xs ys) refl
  | inr e ↦ rw (e, of_lane-append l xs ys) refl
]

joined-append : {A : Type 0} (xs ys : List (List A)) → joined (xs ++ ys) ≡ joined xs ++ joined ys
unfolding joined
joined-append [] ys = refl
joined-append (x ∷ xs) ys =
    ap (λ l. x ++ l) (joined-append xs ys) ∙ sym (append_assoc x (joined xs) (joined ys))

chained :
    {A : Type 0} (w v p q r a b : List A)
    → w ++ q ≡ p ++ a
    → v ++ r ≡ q ++ b
    → (w ++ v) ++ r ≡ p ++ (a ++ b)
chained w v p q r a b e d =
    append_assoc w v r
    ∙ ap (λ l. w ++ l) d
    ∙ sym (append_assoc w q b)
    ∙ ap (λ l. l ++ b) e
    ∙ append_assoc p a b

frames_queued-append :
    (xs ys : List Msg) → frames_queued (xs ++ ys) ≡ frames_queued xs ++ frames_queued ys
unfolding frames_queued
frames_queued-append xs ys =
    ap joined (map-append (λ m. (frames m).1) xs ys)
    ∙ joined-append (map (λ m. (frames m).1) xs) (map (λ m. (frames m).1) ys)

-- On every lane of an outbox that is not closing, whatever is pushed and however the batches are
-- taken: the frames that were written and those that are still queued are those queued at first
-- and then, in order, those of the messages that were accepted.
pub written_in_order :
    (k : Lane) (acts : List Act) (o : Outbox)
    → o.closing ≡ none
    → of_lane k (written acts o) ++ (after acts o).q k
      ≡ o.q k ++ joined (map (λ m. (frames m).1) (of_lane k (accepted acts o)))
unfolding written after accepted joined frames_queued Kept Opened
written_in_order k [] o h = unfold of_lane in sym (append-nil (o.q k))
written_in_order k (a ∷ acts) o h =
    let (h', e) = act-Kept k a o h in
    let rest = written_in_order k acts (after_act a o) h' in
    rw
      (
        of_lane-append k (written_act a o) (written acts (after_act a o)),
        of_lane-append k (accepted_act a o) (accepted acts (after_act a o)),
        frames_queued-append (of_lane k (accepted_act a o))
            (of_lane k (accepted acts (after_act a o))),
      )
      (chained (of_lane k (written_act a o)) (of_lane k (written acts (after_act a o))) (o.q k) _ _
        _ _ e rest)
