-- ===== src/Mesh/Wire/Numbers.antt =====
-- crates/oxmesh/src/wire.rs: a number of the wire is read back.
use oxlens_sfu.Base.{
  ℕ, zero, suc, ◌+◌, ◌*◌, ◌/◌, ◌%◌, ◌^◌, ◌<◌, ◌==◌, ◌≡◌, refl, ap, ◌∙◌, Bool-cases, inl, inr, ◌++◌,
  ◌∷◌, some, bit_and, bit_or, low_7, and_127, and_128, or_top, arith,
}
use native.Mathlib.Nat.{div-add-mod}
use oxlens_sfu.Mesh.Wire.Cursor.{Bytes, put_groups, put_var, get_groups, get_var}

abbrev pub IsU64 : ℕ → Type 0
IsU64 v = v < 18446744073709551616

last_group :
    (k w v scale : ℕ) (rest : Bytes)
    → w < 128
    → IsU64 (v + w * scale)
    → get_groups (suc k) v scale (w ∷ rest) ≡ some (v + w * scale, rest)
unfolding get_groups
last_group k w v scale rest h fits =
    let a : bit_and w 128 ≡ 0 = and_128 w (omega arith) ∙ omega arith in
    let b : w * scale % 18446744073709551616 ≡ w * scale = ground arith in
    let c : bit_and w 127 ≡ w = and_127 w (omega arith) ∙ omega arith in rw (a, c, b) refl

inner_group :
    (k g v scale : ℕ) (rest : Bytes)
    → g < 128
    → IsU64 (v + g * scale)
    → get_groups (suc k) v scale (bit_or g 128 ∷ rest)
      ≡ get_groups k (v + g * scale) (scale * 128) rest
unfolding get_groups
inner_group k g v scale rest h fits =
    let t = or_top g h in
    let a : bit_and (g + 128) 128 ≡ 128 = and_128 (g + 128) (omega arith) ∙ omega arith in
    let c : bit_and (g + 128) 127 ≡ g = and_127 (g + 128) (omega arith) ∙ omega arith in
    let b : g * scale % 18446744073709551616 ≡ g * scale = ground arith in rw (t, a, c, b) refl

-- The lowest group of a number, and the others.
split_group : (w scale : ℕ) → w * scale ≡ w % 128 * scale + w / 128 * (scale * 128)
split_group w scale = omega (arith, ap (λ (t : ℕ). t * scale) (div-add-mod w 128))

get_groups-put_groups :
    (k w v scale : ℕ) (rest : Bytes)
    → w < 128 ^ suc k
    → IsU64 (v + w * scale)
    → get_groups (suc k) v scale (put_groups (suc k) w ++ rest) ≡ some (v + w * scale, rest)
unfolding put_groups
get_groups-put_groups zero w v scale rest h fits =
    let a : w / 128 ≡ 0 = omega arith in
    let b : bit_and w 127 ≡ w = low_7 w ∙ omega arith in
    rw (a, b) (last_group zero w v scale rest (omega arith) fits)
get_groups-put_groups (suc k) w v scale rest h fits = elim (Bool-cases (w / 128 == 0)) [
  | inl e ↦
      let z : w / 128 ≡ 0 = ground arith in
      let b : bit_and w 127 ≡ w = low_7 w ∙ omega arith in
      rw (e, b) (last_group (suc k) w v scale rest (omega arith) fits)
  | inr e ↦
      let s = split_group w scale in
      rw
        (
          e,
          low_7 w,
          inner_group (suc k) (w % 128) v scale (put_groups (suc k) (w / 128) ++ rest) (omega arith)
              (omega arith),
        )
        (get_groups-put_groups k (w / 128) (v + w % 128 * scale) (scale * 128) rest (omega arith)
            (omega arith)
          ∙ ap (λ t. some (t, rest)) (omega arith))
]

pub get_var-put_var :
    (v : ℕ) (rest : Bytes) → IsU64 v → get_var (put_var v ++ rest) ≡ some (v, rest)
unfolding get_var put_var
get_var-put_var v rest h =
    get_groups-put_groups 9 v 0 1 rest (omega arith) (omega arith)
    ∙ ap (λ t. some (t, rest)) (omega arith)
