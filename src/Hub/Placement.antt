-- ===== src/Hub/Placement.antt =====
-- crates/oxhubd/src/bus/placement.rs: rendezvous hashing. A name is its UTF-8 bytes, by which the
-- code compares names too.
use Prim.Native.Nat.{bit_xor}
use oxlens_sfu.Base.{
  ℕ, ◌+◌, ◌*◌, ◌/◌, ◌%◌, ◌==◌, Bool, true, false, ◌&&◌, ◌||◌, List, [], ◌∷◌, ◌++◌, Option, none,
  some, ltb, if◌then◌else◌,
}

abbrev pub Name : Type 0
Name = List ℕ

abbrev u64 : ℕ → ℕ
u64 n = n % 18446744073709551616

unfoldable pub fnv_loop : List ℕ → ℕ → ℕ
fnv_loop [] h = h
fnv_loop (b ∷ bs) h = fnv_loop bs (u64 (bit_xor h b * 1099511628211))

unfoldable pub fnv1a64 : List ℕ → ℕ
unfolding fnv_loop
fnv1a64 bytes = fnv_loop bytes 14695981039346656037

-- `z ^= z >> n`, with `d` the power of two.
abbrev fold_down : ℕ → ℕ → ℕ
fold_down d z = bit_xor z (z / d)

unfoldable pub splitmix_finish : ℕ → ℕ
splitmix_finish z =
    let z1 = u64 (z + 11400714819323198485) in
    let z2 = u64 (fold_down 1073741824 z1 * 13787848793156543929) in
    let z3 = u64 (fold_down 134217728 z2 * 10723151780598845931) in fold_down 2147483648 z3

unfoldable pub score : Name → Name → ℕ
unfolding fnv1a64 splitmix_finish
score node room = splitmix_finish (fnv1a64 (node ++ (0 ∷ room)))

-- `<` on strings.
unfoldable pub precedes : Name → Name → Bool
precedes [] [] = false
precedes [] (y ∷ ys) = true
precedes (x ∷ xs) [] = false
precedes (x ∷ xs) (y ∷ ys) = let rest = precedes xs ys in ltb x y || (x == y && rest)

-- `best` after one more node.
unfoldable pub better : Option (ℕ × Name) → ℕ → Name → Option (ℕ × Name)
unfolding precedes
better none s n = some (s, n)
better (some (bs, bn)) s n =
    if ltb bs s || (s == bs && precedes n bn) then some (s, n) else some (bs, bn)

-- The loop of `pick`.
unfoldable pub best_of : Option (ℕ × Name) → List Name → Name → Option (ℕ × Name)
unfolding better score
best_of best [] room = best
best_of best (n ∷ ns) room = best_of (better best (score n room) n) ns room

abbrev pub name_of : Option (ℕ × Name) → Option Name
name_of none = none
name_of (some (s, n)) = some n

unfoldable pub pick : List Name → Name → Option Name
unfolding best_of
pick nodes room = name_of (best_of none nodes room)
