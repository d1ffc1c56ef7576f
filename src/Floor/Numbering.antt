-- ===== src/Floor/Numbering.antt =====
-- crates/oxsfud/src/ops/floor.rs: the numbering of the floor's effects in `run`, and the media slot
-- that takes them.
use oxlens_sfu.Base.{ℕ, suc, ◌≤◌, ◌≡◌, refl, sym, ◌∙◌, ap, List, [], ◌∷◌, Option, none, some, arith}
use mathlib.Core.List.{Pairwise, Permᴰ, Mem, eq-or-mem_of_mem-cons, not-mem-nil}
use mathlib.Core.Logic.Or
use mathlib.Core.Path.{subst}
use oxlens_sfu.Floor.Types.{UserId, Fx, holder, new}
use oxlens_sfu.Floor.Events.{Event, run}
use oxlens_sfu.Floor.Binding.{bound_after}
use oxlens_sfu.Floor.Media.{effects, effects-holder}
use oxlens_sfu.Floor.Slot.{
  Effect, Slot, IsSlot, Distinct, apply, apply_all, free_slot, speaker, apply_all-Permᴰ,
  apply-IsSlot, Distinct-prop,
}

-- `ck.grant_no` and the effects that `run` pushes for the floor's effects.
unfoldable pub number_fx : ℕ → List Fx → List Effect
number_fx n [] = []
number_fx n (Fx.bind u ∷ xs) = Effect.bind u (suc n) ∷ number_fx (suc n) xs
number_fx n (Fx.release p ∷ xs) = Effect.release n ∷ number_fx n xs

-- The grants of what follows are later than `m`.
later :
    (u : UserId) (m n : ℕ) (xs : List Fx)
    → m ≤ n
    → (e : Effect) → Mem e (number_fx n xs)
    → Distinct (Effect.bind u m) e
unfolding number_fx
later u m n [] h e k = absurd (not-mem-nil k)
later u m n (Fx.bind v ∷ xs) h e k =
    Or.elim (Distinct-prop (Effect.bind u m) e) (eq-or-mem_of_mem-cons k)
      (λ q. subst (Distinct (Effect.bind u m)) (sym q) (λ p. omega arith))
      (later u m (suc n) xs (omega arith) e)
later u m n (Fx.release p ∷ xs) h e k =
    Or.elim (Distinct-prop (Effect.bind u m) e) (eq-or-mem_of_mem-cons k)
      (λ q. subst (Distinct (Effect.bind u m)) (sym q) _) (later u m n xs h e)

released : (n : ℕ) (e : Effect) → Distinct (Effect.release n) e
released n (Effect.bind u g) = _
released n (Effect.release g) = _

-- No two of the effects that a room numbers bind the slot for the same grant.
pub number_fx-Pairwise : (n : ℕ) (xs : List Fx) → Pairwise Distinct (number_fx n xs)
unfolding number_fx
number_fx-Pairwise n [] = Pairwise.nil
number_fx-Pairwise n (Fx.bind u ∷ xs) =
    Pairwise.cons (later u (suc n) (suc n) xs (omega arith)) (number_fx-Pairwise (suc n) xs)
number_fx-Pairwise n (Fx.release p ∷ xs) =
    Pairwise.cons (λ e _. released n e) (number_fx-Pairwise n xs)

abbrev SeenUpto : Option ℕ → ℕ → Type 0
SeenUpto none n = Unit {0}
SeenUpto (some m) n = m ≤ n

after_bind :
    (s : Slot) (u : UserId) (n : ℕ)
    → SeenUpto s.max_seen n
    → (speaker (apply s (Effect.bind u (suc n))).0 ≡ some u)
      × SeenUpto (apply s (Effect.bind u (suc n))).0.max_seen (suc n)
unfolding apply speaker
after_bind s u n h = ground arith

after_release :
    (s : Slot) (n : ℕ)
    → IsSlot s
    → SeenUpto s.max_seen n
    → (speaker (apply s (Effect.release n)).0 ≡ none)
      × SeenUpto (apply s (Effect.release n)).0.max_seen n
unfolding apply speaker
after_release s n i h = ground arith

number_fx-speaker :
    (n : ℕ) (xs : List Fx) (s : Slot)
    → IsSlot s
    → SeenUpto s.max_seen n
    → speaker (apply_all s (number_fx n xs)) ≡ bound_after xs (speaker s)
unfolding number_fx apply_all
number_fx-speaker n [] s i h = refl
number_fx-speaker n (Fx.bind u ∷ xs) s i h =
    let (a, b) = after_bind s u n h in
    number_fx-speaker (suc n) xs _ (apply-IsSlot s _ i) b ∙ ap (bound_after xs) a
number_fx-speaker n (Fx.release p ∷ xs) s i h =
    let (a, b) = after_release s n i h in
    number_fx-speaker n xs _ (apply-IsSlot s _ i) b ∙ ap (bound_after xs) a

-- The media slot of a room, free at first, is bound to the holder of the floor once all the
-- effects of a history have reached it, in whatever order they did.
pub effects-slot :
    (qmax t2 : ℕ) (es : List Event) (fs : List Effect)
    → Permᴰ (number_fx 0 (effects (new qmax t2) es)) fs
    → speaker (apply_all free_slot fs) ≡ holder (run (new qmax t2) es)
unfolding apply_all speaker
effects-slot qmax t2 es fs p =
    let fx = effects (new qmax t2) es in
    ap speaker (sym (apply_all-Permᴰ free_slot _ fs _ (number_fx-Pairwise 0 fx) p))
    ∙ number_fx-speaker 0 fx free_slot _ _
    ∙ effects-holder qmax t2 es
