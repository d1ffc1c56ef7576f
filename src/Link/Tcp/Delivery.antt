-- ===== src/Link/Tcp/Delivery.antt =====
-- crates/oxsfud/src/fwd/rt.rs and link/tcp.rs: what one end of a connection sends and the other
-- end reads.
use oxlens_sfu.Base.{
  ◌+◌, ◌≤◌, ◌/◌, ◌%◌, ◌==◌, ◌≡◌, ◌∙◌, refl, sym, ap, Bool, true, false, List, [], ◌∷◌, ◌++◌, Option,
  none, some, length, take, drop, ltb, be16, if◌then◌else◌, arith, length-append, Bool-cases,
  if_cases, inl, inr, take-append, drop-append, take-drop, All,
}
use mathlib.Core.List.{append_assoc, append-nil}
use oxlens_sfu.Link.Tcp.{Bytes, frame, read_all, write, write_all}
use oxlens_sfu.Link.Tcp.Stream.{
  splits, behind, held, joined, one, splits_of_length, read_all-splits, splits_empty,
}
use oxlens_sfu.Link.Tcp.Out.{Written, TcpOut, write_loop, send_frame, send, send_all, send_buf}

-- The payloads that are handed on, which are not empty.
unfoldable pub filled : List Bytes → List Bytes
filled [] = []
filled (p ∷ ps) = let rest = filled ps in if length p == 0 then rest else p ∷ rest

-- What the socket takes, and what is left, are the bytes.
write_loop-append : (ws : List Written) (b : Bytes) → (write_loop ws b).1 ++ (write_loop ws b).0 ≡ b
unfolding write_loop
write_loop-append [] b = refl
write_loop-append (w ∷ ws) [] = refl
write_loop-append (Written.would_block ∷ ws) (x ∷ b) = refl
write_loop-append (Written.failed ∷ ws) (x ∷ b) = refl
write_loop-append (Written.wrote n ∷ ws) (x ∷ b) = elim (Bool-cases (n == 0)) [
  | inl z ↦ rw z refl
  | inr z ↦ rw z (
      append_assoc (take n (x ∷ b)) (write_loop ws (drop n (x ∷ b))).1
        (write_loop ws (drop n (x ∷ b))).0
      ∙ ap (λ l. take n (x ∷ b) ++ l) (write_loop-append ws (drop n (x ∷ b)))
      ∙ take-drop n (x ∷ b))
]

abbrev pub Works : Written → Type 0
Works Written.failed = ⊥
Works w = Unit {0}

write_loop-Works : (ws : List Written) (b : Bytes) → All Works ws → (write_loop ws b).2 ≡ true
unfolding write_loop
write_loop-Works [] b h = refl
write_loop-Works (w ∷ ws) [] h = refl
write_loop-Works (Written.would_block ∷ ws) (x ∷ b) h = refl
write_loop-Works (Written.failed ∷ ws) (x ∷ b) h = absurd h.0
write_loop-Works (Written.wrote n ∷ ws) (x ∷ b) h = elim (Bool-cases (n == 0)) [
  | inl z ↦ rw z refl
  | inr z ↦ rw z (write_loop-Works ws (drop n (x ∷ b)) h.1)
]

accepted : Bool → Option Bytes → Bytes
accepted true f = write f []
accepted false f = []

send_frame-append :
    (o : TcpOut) (f : Option Bytes) (ws : List Written)
    → All Works ws
    → (send_frame o f ws).1 ++ (send_frame o f ws).0.pending
      ≡ o.pending ++ accepted (send_frame o f ws).2 f
unfolding send_frame accepted write
send_frame-append o none ws h = rw append-nil refl
send_frame-append o (some f) ws h = elim (Bool-cases (ltb send_buf (length o.pending + length f))) [
  | inl z ↦ rw (z, append-nil) refl
  | inr z ↦
      rw (z, write_loop-Works ws (o.pending ++ f) h, append-nil)
        (write_loop-append ws (o.pending ++ f))
]

accepted-write : (f : Option Bytes) (out : Bytes) → accepted true f ++ out ≡ write f out
unfolding accepted write
accepted-write none out = refl
accepted-write (some f) out = rw append-nil refl

abbrev pub AllWork : List (Bytes × List Written) → Type 0
AllWork ss = All (λ (s : Bytes × List Written). All Works s.1) ss

accepted-kept :
    (fine : Bool) (p : Bytes) (ps : List Bytes)
    → accepted fine (frame p) ++ write_all ps ≡ write_all (if fine then p ∷ ps else ps)
unfolding write_all
accepted-kept true p ps = accepted-write (frame p) (write_all ps)
accepted-kept false p ps = unfold accepted in refl

send_all-append :
    (o : TcpOut) (ss : List (Bytes × List Written))
    → AllWork ss
    → (send_all o ss).1 ++ (send_all o ss).0.pending ≡ o.pending ++ write_all (send_all o ss).2
unfolding send_all send write_all
send_all-append o [] h = rw append-nil refl
send_all-append o ((p, ws) ∷ ss) h =
    let r = send_frame o (frame p) ws in
    let all = send_all r.0 ss in
    append_assoc r.1 all.1 all.0.pending
    ∙ ap (λ b. r.1 ++ b) (send_all-append r.0 ss h.1)
    ∙ sym (append_assoc r.1 r.0.pending (write_all all.2))
    ∙ ap (λ b. b ++ write_all all.2) (send_frame-append o (frame p) ws h.0)
    ∙ append_assoc o.pending (accepted r.2 (frame p)) (write_all all.2)
    ∙ ap (λ b. o.pending ++ b) (accepted-kept r.2 p all.2)

short_frame : (p : Bytes) → length p ≤ 65535 → frame p ≡ some (be16 (length p) ++ p)
unfolding frame
short_frame p h = let e : ltb 65535 (length p) ≡ false = ground arith in rw e refl

one-append : (p out : Bytes) → one (length p) (p ++ out) ≡ (if length p == 0 then [] else p ∷ [])
unfolding one
one-append p out = rw (take-append p out) refl

abbrev pub IsShort : Bytes → Type 0
IsShort p = length p ≤ 65535

splits-write :
    (p out : Bytes)
    → length p ≤ 65535
    → splits (write (frame p) out) ≡ behind (if length p == 0 then [] else p ∷ []) (splits out)
unfolding write
splits-write p out h =
    let e : frame p ≡ some (be16 (length p) ++ p) = short_frame p h in
    let whole =
      splits_of_length (length p / 256 % 256) (length p % 256) (length p) (p ++ out) (omega arith)
        (omega (arith, length-append p out)) in
    rw e (whole ∙ rw (drop-append p out, one-append p out) refl)

splits-write_all : (ps : List Bytes) → All IsShort ps → splits (write_all ps) ≡ ([], filled ps)
unfolding write_all filled
splits-write_all [] h = splits_empty [] (omega arith)
splits-write_all (p ∷ ps) h =
    splits-write p (write_all ps) h.0
    ∙ ap (behind (if length p == 0 then [] else p ∷ [])) (splits-write_all ps h.1)
    ∙ rest p (filled ps)
  where
    rest :
        (p : Bytes) (ps : List Bytes)
        → behind (if length p == 0 then [] else p ∷ []) ([], ps)
          ≡ ([], if length p == 0 then ps else p ∷ ps)
    rest p ps = ground arith

-- Only a payload that fits in a frame is accepted.
send_frame-short :
    (o : TcpOut) (p : Bytes) (ws : List Written)
    → (send_frame o (frame p) ws).2 ≡ true
    → length p ≤ 65535
unfolding frame send_frame
send_frame-short o p ws h = elim (Bool-cases (ltb 65535 (length p))) [
  | inl e ↦ cc (rw e at h)
  | inr e ↦ ground arith
]

send_all-IsShort : (o : TcpOut) (ss : List (Bytes × List Written)) → All IsShort (send_all o ss).2
unfolding send_all send
send_all-IsShort o [] = tt
send_all-IsShort o ((p, ws) ∷ ss) =
    let r = send_frame o (frame p) ws in
    if_cases (All IsShort) r.2 (λ e. (send_frame-short o p ws e, send_all-IsShort r.0 ss))
      (λ _. send_all-IsShort r.0 ss)

-- A new connection.
abbrev pub new_out : TcpOut
new_out = record { pending = []; is_open = true }

-- When no write on a new connection fails and nothing is left to write in the end, then however the
-- bytes that the socket took are cut into chunks, the reader takes from them the payloads that were
-- accepted, in order and without the empty ones, and is left with no bytes.
pub read_all-send_all :
    (ss : List (Bytes × List Written)) (cs : List Bytes)
    → AllWork ss
    → (send_all new_out ss).0.pending ≡ []
    → joined cs ≡ (send_all new_out ss).1
    → read_all (record { buf = [] }) cs ≡ (record { buf = [] }, filled (send_all new_out ss).2)
read_all-send_all ss cs h e j =
    let all = send_all-append new_out ss h in
    let short = send_all-IsShort new_out ss in
    read_all-splits [] cs (splits_empty [] (omega arith))
    ∙ ap (λ b. held (splits b))
        (j
          ∙ sym (append-nil (send_all new_out ss).1)
          ∙ ap (λ l. (send_all new_out ss).1 ++ l) (sym e)
          ∙ all)
    ∙ ap held (splits-write_all (send_all new_out ss).2 short)
