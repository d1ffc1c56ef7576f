-- ===== src/Mesh/Wire/Cursor.antt =====
-- crates/oxmesh/src/wire.rs: the pieces of which messages are written, and the cursor that reads
-- them. A cursor is the bytes that are left to read. The groups of seven bits of a number do not
-- overlap, so `|=` adds them; the scale of a group is `1 << shift`.
use oxlens_sfu.Base.{
  ℕ, zero, suc, ◌+◌, ◌*◌, ◌/◌, ◌%◌, ◌==◌, Bool, List, [], ◌∷◌, ◌++◌, Option, none, some, bit_and,
  bit_or, length, take, drop, leb, if◌then◌else◌,
}

abbrev pub Bytes : Type 0
Bytes = List ℕ

-- The loop of `put_var`; a number of 64 bits has at most ten groups.
unfoldable pub put_groups : ℕ → ℕ → Bytes
put_groups zero v = []
put_groups (suc k) v =
    let rest = put_groups k (v / 128) in
    if v / 128 == 0 then bit_and v 127 ∷ [] else bit_or (bit_and v 127) 128 ∷ rest

unfoldable pub put_var : ℕ → Bytes
put_var v = put_groups 10 v

unfoldable pub put_bytes : Bytes → Bytes
put_bytes v = put_var (length v) ++ v

unfoldable pub put_pairs_loop : List (Bytes × Bytes) → Bytes
put_pairs_loop [] = []
put_pairs_loop ((k, v) ∷ ps) = put_bytes k ++ (put_bytes v ++ put_pairs_loop ps)

unfoldable pub put_pairs : List (Bytes × Bytes) → Bytes
put_pairs ps = put_var (length ps) ++ put_pairs_loop ps

-- A step of the cursor: its result and the bytes after it, or nothing.
abbrev pub Cur : Type 0 → Type 0
Cur A = Bytes → Option (A × Bytes)

unfoldable pub done : {A : Type 0} → A → Cur A
done a s = some (a, s)

unfoldable pub stop : {A : Type 0} → Cur A
stop s = none

abbrev after : {A B : Type 0} → Option (A × Bytes) → (A → Cur B) → Option (B × Bytes)
after none f = none
after (some (a, s)) f = f a s

infixl 5 ◌>>=◌
unfoldable pub ◌>>=◌ : {A B : Type 0} → Cur A → (A → Cur B) → Cur B
◌>>=◌ m f s = after (m s) f

unfoldable pub get_u8 : Cur ℕ
get_u8 [] = none
get_u8 (x ∷ s) = some (x, s)

-- The loop of `var`, with the number so far and the scale of the next group.
unfoldable pub get_groups : ℕ → ℕ → ℕ → Cur ℕ
get_groups zero v scale s = none
get_groups (suc k) v scale [] = none
get_groups (suc k) v scale (x ∷ s) =
    let v' = v + bit_and x 127 * scale % 18446744073709551616 in
    let rest = get_groups k v' (scale * 128) s in if bit_and x 128 == 0 then some (v', s) else rest

unfoldable pub get_var : Cur ℕ
get_var s = get_groups 10 0 1 s

-- A count of things that are left to read, each of at least a byte.
unfoldable pub get_len : Cur ℕ
get_len = do n ← get_var; λ s. if leb n (length s) then some (n, s) else none

unfoldable pub get_bytes : Cur Bytes
get_bytes = do n ← get_len; λ s. some (take n s, drop n s)

-- Which bytes are the UTF-8 of a string is known to the standard library.
module _ (utf8 : Bytes → Bool) where
  unfoldable pub get_str : Cur Bytes
  get_str = do v ← get_bytes; if utf8 v then done v else stop

  unfoldable pub get_strs : ℕ → Cur (List Bytes)
  get_strs zero = done []
  get_strs (suc n) = do v ← get_str; vs ← get_strs n; done (v ∷ vs)

  unfoldable pub get_pairs_loop : ℕ → Cur (List (Bytes × Bytes))
  get_pairs_loop zero = done []
  get_pairs_loop (suc n) = do k ← get_str; v ← get_str; ps ← get_pairs_loop n; done ((k, v) ∷ ps)

  unfoldable pub get_pairs : Cur (List (Bytes × Bytes))
  get_pairs = do n ← get_len; get_pairs_loop n
