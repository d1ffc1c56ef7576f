-- ===== src/Mesh/Wire/Pieces.antt =====
-- crates/oxmesh/src/wire.rs: what the cursor reads of the pieces that were written, whatever
-- follows them.
use oxlens_sfu.Base.{
  ℕ, ◌≤◌, ◌≡◌, refl, Bool, true, List, [], ◌∷◌, ◌++◌, some, length, length-append, take-append,
  drop-append, arith, leb, All, ◌/◌, ◌==◌, Bool-cases, inl, inr,
}
use mathlib.Core.List.{append_assoc}
use oxlens_sfu.Mesh.Wire.Cursor.{
  Bytes, Cur, done, ◌>>=◌, put_groups, put_var, put_bytes, put_pairs_loop, put_pairs, get_u8,
  get_var, get_len, get_bytes, get_str, get_strs, get_pairs_loop, get_pairs,
}
use oxlens_sfu.Mesh.Wire.Message.{put_strs}
use oxlens_sfu.Mesh.Wire.Numbers.{IsU64, get_var-put_var}

-- The cursor reads `a` from the bytes `b`, and leaves what follows.
pub record Reads {A : Type 0} (p : Cur A) (b : Bytes) (a : A) : Type 0 where
  pub reads : (rest : Bytes) → p (b ++ rest) ≡ some (a, rest)

pub Reads-bind :
    {A B : Type 0} {p : Cur A} (f : A → Cur B) {b c : Bytes} {a : A} {d : B}
    → Reads p b a
    → Reads (f a) c d
    → Reads (p >>= f) (b ++ c) d
unfolding ◌>>=◌
Reads-bind f {b = b} {c = c} h k = record {
  reads = λ rest. rw (append_assoc b c rest, h.reads (c ++ rest)) (k.reads rest);
}

pub Reads-last :
    {A B : Type 0} {p : Cur A} (g : A → B) {b : Bytes} {a : A}
    → Reads p b a
    → Reads (p >>= (λ x. done (g x))) b (g a)
unfolding ◌>>=◌ done
Reads-last g h = record { reads = λ rest. rw (h.reads rest) refl }

pub Reads-done : {A : Type 0} (a : A) → Reads (done a) [] a
unfolding done
Reads-done a = record { reads = λ rest. refl }

pub Reads-u8 : (x : ℕ) → Reads get_u8 (x ∷ []) x
unfolding get_u8
Reads-u8 x = record { reads = λ rest. refl }

pub Reads-var : (v : ℕ) → IsU64 v → Reads get_var (put_var v) v
Reads-var v h = record { reads = λ rest. get_var-put_var v rest h }

get_len-put_var :
    (n : ℕ) (rest : Bytes)
    → IsU64 n
    → n ≤ length rest
    → get_len (put_var n ++ rest) ≡ some (n, rest)
unfolding get_len ◌>>=◌
get_len-put_var n rest h k =
    let e : leb n (length rest) ≡ true = ground arith in rw (get_var-put_var n rest h, e) refl

pub Reads-bytes : (v : Bytes) → IsU64 (length v) → Reads get_bytes (put_bytes v) v
unfolding get_bytes put_bytes ◌>>=◌
Reads-bytes v h = record {
  reads = λ rest.
      rw
        (
          append_assoc (put_var (length v)) v rest,
          get_len-put_var (length v) (v ++ rest) h (omega (arith, length-append v rest)),
          take-append v rest,
          drop-append v rest,
        )
        refl;
}

-- A count of things that each take a byte at least.
pub Reads-count :
    {A : Type 0} (p : ℕ → Cur A) {c : Bytes} {a : A} (n : ℕ)
    → IsU64 n
    → n ≤ length c
    → Reads (p n) c a
    → Reads (get_len >>= p) (put_var n ++ c) a
unfolding ◌>>=◌
Reads-count p {c = c} n h k r = record {
  reads = λ rest.
      rw
        (
          append_assoc (put_var n) c rest,
          get_len-put_var n (c ++ rest) h (omega (arith, length-append c rest)),
        )
        (r.reads rest);
}

length-put_bytes : (v : Bytes) → 1 ≤ length (put_bytes v)
unfolding put_bytes put_var put_groups
length-put_bytes v =
    let n : 1 ≤ length (put_var (length v)) = elim (Bool-cases (length v / 128 == 0)) [
      | inl e ↦ rw e (omega arith)
      | inr e ↦ rw e (omega arith)
    ] in
    omega (arith, length-append (put_var (length v)) v)

pub length-put_strs : (vs : List Bytes) → length vs ≤ length (put_strs vs)
unfolding put_strs
length-put_strs [] = omega arith
length-put_strs (v ∷ vs) =
    omega (arith, length-put_bytes v, length-append (put_bytes v) (put_strs vs), length-put_strs vs)

length-put_pairs_loop : (ps : List (Bytes × Bytes)) → length ps ≤ length (put_pairs_loop ps)
unfolding put_pairs_loop
length-put_pairs_loop [] = omega arith
length-put_pairs_loop ((k, v) ∷ ps) = omega (
  arith,
  length-put_bytes k,
  length-append (put_bytes k) (put_bytes v ++ put_pairs_loop ps),
  length-append (put_bytes v) (put_pairs_loop ps),
  length-put_pairs_loop ps,
)

module _ (utf8 : Bytes → Bool) where
  -- A string: its bytes are UTF-8, and its length is a number of 64 bits.
  abbrev pub IsText : Bytes → Type 0
  IsText v = (utf8 v ≡ true) × IsU64 (length v)

  pub Reads-str : (v : Bytes) → IsText v → Reads (get_str utf8) (put_bytes v) v
  unfolding get_str ◌>>=◌ done
  Reads-str v (u, h) = record { reads = λ rest. rw ((Reads-bytes v h).reads rest, u) refl }

  pub Reads-strs :
      (vs : List Bytes) → All IsText vs → Reads (get_strs utf8 (length vs)) (put_strs vs) vs
  unfolding get_strs put_strs
  Reads-strs [] h = Reads-done []
  Reads-strs (v ∷ vs) (h, k) = Reads-bind _ (Reads-str v h) (Reads-last _ (Reads-strs vs k))

  abbrev pub IsTextPair : Bytes × Bytes → Type 0
  IsTextPair p = IsText p.0 × IsText p.1

  Reads-pairs_loop :
      (ps : List (Bytes × Bytes))
      → All IsTextPair ps
      → Reads (get_pairs_loop utf8 (length ps)) (put_pairs_loop ps) ps
  unfolding get_pairs_loop put_pairs_loop
  Reads-pairs_loop [] h = Reads-done []
  Reads-pairs_loop ((k, v) ∷ ps) ((a, b), c) =
      Reads-bind _ (Reads-str k a)
        (Reads-bind _ (Reads-str v b) (Reads-last _ (Reads-pairs_loop ps c)))

  pub Reads-pairs :
      (ps : List (Bytes × Bytes))
      → All IsTextPair ps
      → IsU64 (length ps)
      → Reads (get_pairs utf8) (put_pairs ps) ps
  unfolding get_pairs put_pairs
  Reads-pairs ps h k =
      Reads-count _ (length ps) k (length-put_pairs_loop ps) (Reads-pairs_loop ps h)
