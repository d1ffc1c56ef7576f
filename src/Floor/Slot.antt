-- ===== src/Floor/Slot.antt =====
-- crates/oxsfud/src/flr/bind.rs: the binding of a media slot, whose effects may come late and out
-- of order. Each effect carries the number of the grant that it belongs to.
use Prim.Native.Nat.{max}
use oxlens_sfu.Base.{
  ℕ, ◌≤◌, ◌≡◌, ◌≢◌, refl, Bool, true, false, Option, none, some, arith, leb, if◌then◌else◌, sym,
  ◌∙◌, ap, List, [], ◌∷◌,
}
use mathlib.Core.HLevel.{¬_prop}
use mathlib.Core.List.{Pairwise, mem-cons_self}
use mathlib.Core.List.{Permᴰ}
use mathlib.Core.List.Permᴰ
use oxlens_sfu.Floor.Types.{UserId}

pub data Effect : Type 0 where
  bind : UserId → ℕ → Effect
  release : ℕ → Effect

pub record Slot : Type 0 where
  pub bound : Option (UserId × ℕ)
  pub max_seen : Option ℕ

-- `Slot::default()`.
abbrev pub free_slot : Slot
free_slot = record { bound = none; max_seen = none }

-- `max_seen.is_some_and(|m| g <= m)`.
abbrev pub seen : Option ℕ → ℕ → Bool
seen none g = false
seen (some m) g = leb g m

abbrev pub max_with : Option ℕ → ℕ → ℕ
max_with none g = g
max_with (some m) g = max m g

abbrev pub releases : Option (UserId × ℕ) → ℕ → Bool
releases none g = false
releases (some (u, b)) g = leb b g

-- The slot after the effect, and whether the effect was taken.
unfoldable pub apply : Slot → Effect → Slot × Bool
apply s (Effect.bind u g) =
    if seen s.max_seen g
    then (s, false)
    else (record { bound = some (u, g); max_seen = some g }, true)
apply s (Effect.release g) =
    let s' = record s { max_seen = some (max_with s.max_seen g) } in
    if releases s.bound g then (record s' { bound = none }, true) else (s', false)

abbrev pub first_of : Option (UserId × ℕ) → Option UserId
first_of none = none
first_of (some (u, g)) = some u

unfoldable pub speaker : Slot → Option UserId
speaker s = first_of s.bound

abbrev number : Effect → ℕ
number (Effect.bind u g) = g
number (Effect.release g) = g

-- The grant that the slot is bound to has been seen.
abbrev pub OkBound : Option (UserId × ℕ) → Option ℕ → Type 0
OkBound none m = Unit {0}
OkBound (some (u, b)) none = ⊥
OkBound (some (u, b)) (some m) = b ≤ m

abbrev pub IsSlot : Slot → Type 0
IsSlot s = OkBound s.bound s.max_seen

-- Two bindings belong to two grants.
abbrev pub Distinct : Effect → Effect → Type 0
Distinct (Effect.bind u g) (Effect.bind v h) = g ≢ h
Distinct _ _ = Unit {0}

pub apply-IsSlot : (s : Slot) (e : Effect) → IsSlot s → IsSlot (apply s e).0
unfolding apply
apply-IsSlot s (Effect.bind u g) h = ground arith
apply-IsSlot s (Effect.release g) h = ground arith

-- Two effects leave the slot the same in either order, unless both bind for the same grant.
pub apply_comm :
    (s : Slot) (e f : Effect)
    → IsSlot s
    → Distinct e f
    → (apply (apply s e).0 f).0 ≡ (apply (apply s f).0 e).0
unfolding apply
apply_comm s (Effect.bind u g) (Effect.bind v h) i d = ground arith
apply_comm s (Effect.bind u g) (Effect.release h) i d = ground arith
apply_comm s (Effect.release g) (Effect.bind v h) i d = ground arith
apply_comm s (Effect.release g) (Effect.release h) i d = ground arith

-- All the effects, in the order in which they arrive.
unfoldable pub apply_all : Slot → List Effect → Slot
apply_all s [] = s
apply_all s (e ∷ es) = apply_all (apply s e).0 es

pub Distinct-prop : (e f : Effect) → IsProp (Distinct e f)
Distinct-prop (Effect.bind u g) (Effect.bind v h) = ¬_prop
Distinct-prop (Effect.bind u g) (Effect.release h) = λ _ _. refl
Distinct-prop (Effect.release g) (Effect.bind v h) = λ _ _. refl
Distinct-prop (Effect.release g) (Effect.release h) = λ _ _. refl

Distinct-sym : (e f : Effect) → Distinct e f → Distinct f e
Distinct-sym (Effect.bind u g) (Effect.bind v h) d = λ e. d (sym e)
Distinct-sym (Effect.bind u g) (Effect.release h) d = d
Distinct-sym (Effect.release g) (Effect.bind v h) d = d
Distinct-sym (Effect.release g) (Effect.release h) d = d

-- In whatever order the effects of distinct grants reach a slot, it ends the same.
pub apply_all-Permᴰ :
    (s : Slot) (es fs : List Effect)
    → IsSlot s
    → Pairwise Distinct es
    → Permᴰ es fs
    → apply_all s es ≡ apply_all s fs
unfolding apply_all
apply_all-Permᴰ s _ _ i d Permᴰ.nil = refl
apply_all-Permᴰ s (e ∷ es) (f ∷ fs) i (Pairwise.cons h d) (Permᴰ.cons eq p) =
    apply_all-Permᴰ (apply s e).0 es fs (apply-IsSlot s e i) d p
    ∙ ap (λ x. apply_all (apply s x).0 fs) eq
apply_all-Permᴰ s (e ∷ f ∷ es) (f' ∷ e' ∷ _) i (Pairwise.cons h d) (Permᴰ.swap p q) =
    ap (λ x. apply_all x es) (apply_comm s e f i (h f mem-cons_self))
    ∙ (λ j. apply_all (apply (apply s (q j)).0 (p j)).0 es)
apply_all-Permᴰ s es gs i d (Permᴰ.trans {l₂ = fs} p q) =
    apply_all-Permᴰ s es fs i d p
    ∙ apply_all-Permᴰ s fs gs i (Permᴰ.pairwise Distinct-prop Distinct-sym p d) q
