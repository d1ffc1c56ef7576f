-- ===== src/Mesh/Wire/Reassembly.antt =====
-- crates/oxmesh/src/wire.rs: frames and reassembly together.
use oxlens_sfu.Base.{
  ℕ, zero, suc, ◌+◌, ◌≤◌, ◌==◌, ◌≡◌, ◌∙◌, refl, sym, ap, true, false, List, [], ◌∷◌, ◌++◌, length,
  take, drop, take-drop, map, ltb, length-append, if◌then◌else◌, arith, Bool-cases, inl, inr,
  Option, none, some, bit_and, All, ==_iff,
}
use mathlib.Core.List.{append_assoc, append-nil}
use oxlens_sfu.Mesh.Wire.Cursor.{Bytes}
use oxlens_sfu.Mesh.Wire.Message.{Lane}
use oxlens_sfu.Mesh.Wire.Frames.{
  lane_code, lane_from, chunks, flagged, pieces, msg_max, more, Assembled, Reassembler, set_part,
  reassemble, empty_parts,
}

-- What a frame completes: a body, or nothing when there is too much.
unfoldable pub completed : {A : Type 0} → Assembled → (Option Bytes → A) → List A → List A
completed (Assembled.done b) f xs = f (some b) ∷ xs
completed Assembled.partial f xs = xs
completed Assembled.too_big f xs = f none ∷ xs

-- What a sequence of frames completes, each with its lane. A frame as it is read is its lane, its
-- flags and its chunk.
unfoldable pub push_all : Reassembler → List (Lane × (ℕ × Bytes)) → List (Lane × Option Bytes)
push_all r [] = []
push_all r ((l, (f, c)) ∷ ps) =
    let (r', a) = reassemble r l f c in completed a (λ b. (l, b)) (push_all r' ps)

-- What belongs to a lane.
unfoldable pub of_lane : {A : Type 0} → Lane → List (Lane × A) → List A
of_lane l [] = []
of_lane l ((k, a) ∷ xs) =
    let rest = of_lane l xs in if lane_code l == lane_code k then a ∷ rest else rest

-- The reassembly of a single lane.
push_part : Bytes → ℕ → Bytes → Bytes × Assembled
push_part p f c =
    if ltb msg_max (length p + length c)
    then (p, Assembled.too_big)
    else if bit_and f more == 0
    then ([], Assembled.done (p ++ c))
    else (p ++ c, Assembled.partial)

push_lane : Bytes → List (ℕ × Bytes) → List (Option Bytes)
push_lane p [] = []
push_lane p ((f, c) ∷ ps) = let (p', a) = push_part p f c in completed a (λ b. b) (push_lane p' ps)

pub lane_from-lane_code : (l : Lane) → lane_from (lane_code l) ≡ some l
unfolding lane_from
lane_from-lane_code Lane.control = refl
lane_from-lane_code Lane.declare = refl
lane_from-lane_code Lane.request = refl
lane_from-lane_code Lane.data_lane = refl

pub lane_code_injective : (l k : Lane) → (lane_code l == lane_code k) ≡ true → l ≡ k
lane_code_injective l k e =
    cc (lane_from-lane_code l, lane_from-lane_code k, (==_iff (lane_code l) (lane_code k)).0 e)

reassemble-push_part :
    (r : Reassembler) (l : Lane) (f : ℕ) (c : Bytes)
    → (reassemble r l f c).1 ≡ (push_part (r l) f c).1
unfolding reassemble push_part
reassemble-push_part r l f c = ground arith

part_same :
    (r : Reassembler) (l : Lane) (f : ℕ) (c : Bytes)
    → (reassemble r l f c).0 l ≡ (push_part (r l) f c).0
unfolding reassemble push_part set_part
part_same r l f c = let d = (==_iff (lane_code l) (lane_code l)).1 refl in ground arith

part_other :
    (r : Reassembler) (l k : Lane) (f : ℕ) (c : Bytes)
    → (lane_code l == lane_code k) ≡ false
    → (reassemble r k f c).0 l ≡ r l
unfolding reassemble set_part
part_other r l k f c e = ground arith

of_lane-completed :
    (l k : Lane) (a : Assembled) (xs : List (Lane × Option Bytes))
    → of_lane l (completed a (λ b. (k, b)) xs)
      ≡ (if lane_code l == lane_code k then completed a (λ b. b) (of_lane l xs) else of_lane l xs)
unfolding of_lane completed
of_lane-completed l k (Assembled.done b) xs = refl
of_lane-completed l k Assembled.partial xs = ground arith
of_lane-completed l k Assembled.too_big xs = refl

-- What the frames of a lane complete depends on no other lane.
of_lane-push_all :
    (l : Lane) (r : Reassembler) (ps : List (Lane × (ℕ × Bytes)))
    → of_lane l (push_all r ps) ≡ push_lane (r l) (of_lane l ps)
unfolding push_all of_lane push_lane
of_lane-push_all l r [] = refl
of_lane-push_all l r ((k, (f, c)) ∷ ps) =
    let rest = of_lane-push_all l (reassemble r k f c).0 ps in
    let split = of_lane-completed l k (reassemble r k f c).1 (push_all (reassemble r k f c).0 ps) in
    elim (Bool-cases (lane_code l == lane_code k)) [
      | inl e ↦
          let same = sym (lane_code_injective l k e) in
          rw (split, e, rest, same, part_same r l f c, reassemble-push_part r l f c) refl
      | inr e ↦ rw (split, e, rest, part_other r l k f c e) refl
    ]

unfoldable pub joined : {A : Type 0} → List (List A) → List A
joined [] = []
joined (c ∷ cs) = c ++ joined cs

push_lane-flagged :
    (acc c : Bytes) (cs : List Bytes) (rest : List (ℕ × Bytes))
    → length acc + length (joined (c ∷ cs)) ≤ msg_max
    → push_lane acc (flagged (c ∷ cs) ++ rest) ≡ some (acc ++ joined (c ∷ cs)) ∷ push_lane [] rest
unfolding push_lane flagged push_part joined completed
push_lane-flagged acc c [] rest h =
    let e : ltb msg_max (length acc + length c) ≡ false = ground (arith, length-append c []) in
    rw (e, append-nil) refl
push_lane-flagged acc c (d ∷ cs) rest h =
    let a = length-append c (joined (d ∷ cs)) in
    let b = length-append acc c in
    let e : ltb msg_max (length acc + length c) ≡ false = ground arith in
    rw e (
      push_lane-flagged (acc ++ c) d cs rest (omega arith)
      ∙ ap (λ b. some b ∷ push_lane [] rest) (append_assoc acc c (joined (d ∷ cs))))

drop_shorter : (n : ℕ) (b : Bytes) → length (drop n b) ≤ length b
drop_shorter zero b = omega arith
drop_shorter (suc n) [] = omega arith
drop_shorter (suc n) (x ∷ b) = omega (arith, drop_shorter n b)

joined-chunks : (room n : ℕ) (b : Bytes) → length b ≤ n → joined (chunks (suc room) n b) ≡ b
unfolding joined chunks
joined-chunks room zero [] h = refl
joined-chunks room zero (x ∷ b) h = absurd (omega arith)
joined-chunks room (suc n) [] h = refl
joined-chunks room (suc n) (x ∷ b) h =
    rw (joined-chunks room n (drop room b) (omega (arith, drop_shorter room b)))
      (ap (λ l. x ∷ l) (take-drop room b))

push_lane-pieces :
    (room : ℕ) (body : Bytes) (rest : List (ℕ × Bytes))
    → length body ≤ msg_max
    → push_lane [] (pieces (suc room) body ++ rest) ≡ some body ∷ push_lane [] rest
unfolding pieces chunks
push_lane-pieces room [] rest h = unfold push_lane push_part completed in refl
push_lane-pieces room (x ∷ b) rest h =
    let e = joined-chunks room (suc (length b)) (x ∷ b) (omega arith) in
    push_lane-flagged [] (x ∷ take room b) (chunks (suc room) (length b) (drop room b)) rest
      (rw e (omega arith))
    ∙ ap (λ b. some b ∷ push_lane [] rest) e

abbrev pub IsShort : Bytes → Type 0
IsShort b = length b ≤ msg_max

push_lane-joined :
    (bodies : List Bytes)
    → All IsShort bodies
    → push_lane [] (joined (map (λ b. pieces 16378 b) bodies)) ≡ map some bodies
unfolding joined
push_lane-joined [] h = unfold push_lane in refl
push_lane-joined (b ∷ bs) (h, k) =
    push_lane-pieces 16377 b (joined (map (λ c. pieces 16378 c) bs)) h
    ∙ ap (λ l. some b ∷ l) (push_lane-joined bs k)

-- When the frames of one lane, taken out of a sequence of frames of all lanes, are those of some
-- bodies of at most 64 MiB one after the other, then a reassembler that starts empty completes
-- these bodies on this lane, in this order and nothing else, whatever frames of the other lanes
-- stand between them.
pub push_all_bodies :
    (l : Lane) (bodies : List Bytes) (ps : List (Lane × (ℕ × Bytes)))
    → All IsShort bodies
    → of_lane l ps ≡ joined (map (λ b. pieces 16378 b) bodies)
    → of_lane l (push_all empty_parts ps) ≡ map some bodies
push_all_bodies l bodies ps h e =
    of_lane-push_all l empty_parts ps ∙ ap (push_lane []) e ∙ push_lane-joined bodies h
