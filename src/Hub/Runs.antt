-- ===== src/Hub/Runs.antt =====
-- crates/oxhubd/src/bus/placement.rs: concrete nodes and rooms.
use oxlens_sfu.Base.{◌≡◌, refl, [], ◌∷◌, some}
use mathlib.Core.Logic.Or
use mathlib.Core.List.{
  Mem, Memᴰ, eq-or-mem_of_mem-cons, mem-cons_self, mem-cons_of_mem, not-mem-nil, Mem-prop,
}
use oxlens_sfu.Hub.Placement.{
  Name, fnv1a64, fnv_loop, pick, best_of, better, score, splitmix_finish,
}
use oxlens_sfu.Hub.Stable.{pick-stable}

-- The values that the code's test has.
fnv_empty : fnv1a64 [] ≡ 14695981039346656037
unfolding fnv1a64 fnv_loop
fnv_empty = refl

fnv_a : fnv1a64 (97 ∷ []) ≡ 12638187200555641996
unfolding fnv1a64 fnv_loop
fnv_a = refl

abbrev node_a : Name
node_a = 97 ∷ []

abbrev node_b : Name
node_b = 98 ∷ []

abbrev room : Name
room = 114 ∷ []

pick-stable_example : pick (node_b ∷ []) room ≡ some node_b
unfolding pick best_of better score fnv1a64 fnv_loop splitmix_finish
pick-stable_example =
    pick-stable room (node_a ∷ node_b ∷ []) (node_b ∷ []) node_b refl mem-cons_self kept
  where
    kept : (m : Name) → Mem m (node_b ∷ []) → Mem m (node_a ∷ node_b ∷ [])
    kept m k =
        Or.elim Mem-prop (eq-or-mem_of_mem-cons k) (λ e. mem-cons_of_mem node_a ∣ Memᴰ.head e ∣₁)
          (λ l. absurd (not-mem-nil l))
