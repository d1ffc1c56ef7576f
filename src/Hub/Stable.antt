-- ===== src/Hub/Stable.antt =====
-- crates/oxhubd/src/bus/placement.rs: what the choice depends on.
use oxlens_sfu.Base.{
  ℕ, ◌==◌, ◌≡◌, refl, sym, ap, ◌∙◌, Bool, true, false, ◌&&◌, ◌||◌, List, [], ◌∷◌, Option, some,
  arith, ltb, if◌then◌else◌, if_cases,
}
use mathlib.Core.Logic.Or
use mathlib.Core.Bool.{Bool-set}
use mathlib.Core.List.{
  Mem, Permᴰ, eq-or-mem_of_mem-cons, mem-cons_self, mem-cons_of_mem, not-mem-nil, Mem-prop,
}
use mathlib.Core.List.Permᴰ
use mathlib.Core.Path.{subst}
use mathlib.Core.Option.{none-ne-some, some-injective}
use oxlens_sfu.Hub.Placement.{Name, score, precedes, better, best_of, pick, name_of}

precedes_irrefl : (a : Name) → precedes a a ≡ false
unfolding precedes
precedes_irrefl [] = refl
precedes_irrefl (x ∷ xs) = ground (arith, precedes_irrefl xs)

precedes_trans : (a b c : Name) → precedes a b ≡ true → precedes b c ≡ true → precedes a c ≡ true
unfolding precedes
precedes_trans [] [] c h k = absurd (ground arith)
precedes_trans [] (y ∷ ys) [] h k = absurd (ground arith)
precedes_trans [] (y ∷ ys) (z ∷ zs) h k = refl
precedes_trans (x ∷ xs) [] c h k = absurd (ground arith)
precedes_trans (x ∷ xs) (y ∷ ys) [] h k = absurd (ground arith)
precedes_trans (x ∷ xs) (y ∷ ys) (z ∷ zs) h k = ground (arith, precedes_trans xs ys zs)

precedes-total : (a b : Name) → precedes a b ≡ false → precedes b a ≡ false → a ≡ b
unfolding precedes
precedes-total [] [] h k = refl
precedes-total [] (y ∷ ys) h k = absurd (ground arith)
precedes-total (x ∷ xs) [] h k = absurd (ground arith)
precedes-total (x ∷ xs) (y ∷ ys) h k = ground (arith, precedes-total xs ys)

module _ (room : Name) where
  -- `a` takes the room from `b`.
  beats : Name → Name → Bool
  beats a b = ltb (score b room) (score a room) || (score a room == score b room && precedes a b)

  beats_trans : (a b c : Name) → beats a b ≡ true → beats b c ≡ true → beats a c ≡ true
  unfolding beats
  beats_trans a b c h k = ground (arith, precedes_trans a b c)

  beats_irrefl : (a : Name) → beats a a ≡ false
  unfolding beats
  beats_irrefl a = ground (arith, precedes_irrefl a)

  beats-total : (a b : Name) → beats a b ≡ false → beats b a ≡ false → a ≡ b
  unfolding beats
  beats-total a b h k = ground (arith, precedes-total a b)

  -- A winner among `b` and `ns`.
  champion : Name → List Name → Name
  champion b [] = b
  champion b (n ∷ ns) = champion (if beats n b then n else b) ns

  best_of-champion :
      (b : Name) (ns : List Name)
      → best_of (some (score b room, b)) ns room ≡ some (score (champion b ns) room, champion b ns)
  unfolding best_of better champion beats
  best_of-champion b [] = refl
  best_of-champion b (n ∷ ns) =
      ap (λ o. best_of o ns room) (keep (beats n b))
      ∙ best_of-champion (if beats n b then n else b) ns
    where
      keep :
          (t : Bool)
          → if◌then◌else◌ {A = Option (ℕ × Name)} t
              (some (score n room, n))
              (some (score b room, b))
            ≡ some (score (if t then n else b) room, if t then n else b)
      keep true = refl
      keep false = refl

  -- Nobody beats the champion.
  unbeaten_first :
      (b : Name) (ns : List Name) (c : Name) → beats c b ≡ false → beats c (champion b ns) ≡ false
  unfolding champion
  unbeaten_first b [] c h = h
  unbeaten_first b (n ∷ ns) c h = unbeaten_first (if beats n b then n else b) ns c (
      if_cases (λ (x : Name). beats c x ≡ false) (beats n b)
        (λ e. ground (arith, beats_trans c n b)) (λ _. h))

  unbeaten :
      (b : Name) (ns : List Name) (c : Name) → Mem c (b ∷ ns) → beats c (champion b ns) ≡ false
  unfolding champion
  unbeaten b [] c m =
      Or.elim (Bool-set _ _) (eq-or-mem_of_mem-cons m)
        (λ e. subst (λ x. beats x b ≡ false) (sym e) (beats_irrefl b)) (λ k. absurd (not-mem-nil k))
  unbeaten b (n ∷ ns) c m =
      Or.elim (Bool-set _ _) (eq-or-mem_of_mem-cons m)
        (λ e. unbeaten_first (if beats n b then n else b) ns c (
          subst (λ x. beats x (if beats n b then n else b) ≡ false) (sym e)
            (if_cases (λ (x : Name). beats b x ≡ false) (beats n b)
              (λ t. ground (arith, beats_trans b n b, beats_irrefl b)) (λ _. beats_irrefl b))))
        (λ k.
          Or.elim (Bool-set _ _) (eq-or-mem_of_mem-cons k)
            (λ e. unbeaten_first (if beats n b then n else b) ns c (
              subst (λ x. beats x (if beats n b then n else b) ≡ false) (sym e)
                (if_cases (λ (x : Name). beats n x ≡ false) (beats n b) (λ _. beats_irrefl n)
                  (λ t. t))))
            (λ l. unbeaten (if beats n b then n else b) ns c (mem-cons_of_mem _ l)))

  champion-Mem : (b : Name) (ns : List Name) → Mem (champion b ns) (b ∷ ns)
  unfolding champion
  champion-Mem b [] = mem-cons_self
  champion-Mem b (n ∷ ns) =
      Or.elim Mem-prop (eq-or-mem_of_mem-cons (champion-Mem (if beats n b then n else b) ns))
        (λ e.
          subst (λ x. Mem x (b ∷ n ∷ ns)) (sym e)
            (if_cases (λ (x : Name). Mem x (b ∷ n ∷ ns)) (beats n b)
              (λ _. mem-cons_of_mem b mem-cons_self) (λ _. mem-cons_self)))
        (λ k. mem-cons_of_mem b (mem-cons_of_mem n k))

  pick-champion : (b : Name) (ns : List Name) → pick (b ∷ ns) room ≡ some (champion b ns)
  unfolding pick best_of better
  pick-champion b ns = ap name_of (best_of-champion b ns)

  nobody : (w : Name) → pick [] room ≡ some w → ⊥
  unfolding pick best_of
  nobody w p = none-ne-some w p

  -- A node that is chosen is chosen too among any of the nodes that it is one of: the order and
  -- the number of times in which nodes are named do not matter, and when nodes go, only the rooms
  -- move that were on one of them.
  pub pick-stable :
      (ns ms : List Name) (w : Name)
      → pick ns room ≡ some w
      → Mem w ms
      → ((m : Name) → Mem m ms → Mem m ns)
      → pick ms room ≡ some w
  pick-stable [] ms w e i h = absurd (nobody w e)
  pick-stable (n ∷ ns) [] w e i h = absurd (not-mem-nil i)
  pick-stable (n ∷ ns) (m ∷ ms) w e i h =
      let a : champion n ns ≡ w = some-injective _ _ (sym (pick-champion n ns) ∙ e) in
      let b : beats (champion m ms) w ≡ false =
        subst (λ x. beats (champion m ms) x ≡ false) a
          (unbeaten n ns (champion m ms) (h (champion m ms) (champion-Mem m ms))) in
      pick-champion m ms ∙ ap (λ x. some x) (beats-total (champion m ms) w b (unbeaten m ms w i))

  -- A room is placed whenever there is a node, and on one of the nodes.
  pub pick-total :
      (n : Name) (ns : List Name) → (w : Name) × (pick (n ∷ ns) room ≡ some w) × Mem w (n ∷ ns)
  pick-total n ns = (champion n ns, pick-champion n ns, champion-Mem n ns)

  -- The order in which the nodes are named does not matter.
  pub pick-Permᴰ : (ns ms : List Name) → Permᴰ ns ms → pick ns room ≡ pick ms room
  pick-Permᴰ [] [] p = refl
  pick-Permᴰ [] (m ∷ ms) p = absurd (not-mem-nil (Permᴰ.mem (Permᴰ.symm p) mem-cons_self))
  pick-Permᴰ (n ∷ ns) ms p =
      let (w, e, i) = pick-total n ns in
      e ∙ sym (pick-stable (n ∷ ns) ms w e (Permᴰ.mem p i) (λ m k. Permᴰ.mem (Permᴰ.symm p) k))
