-- ===== src/Rtcp/Twcc/Unwrap.antt =====
-- crates/oxsfud/src/rtcp/core.rs: the numbers of 16 bits of a stream, without their wrap-arounds.
use oxlens_sfu.Base.{
  ℕ, ◌+◌, ◌%◌, ◌<◌, ◌≤◌, ◌≡◌, refl, ap, List, [], ◌∷◌, map, Option, none, some, ltb, if◌then◌else◌,
  arith, ℤ, ◌+ℤ◌, wrap,
}
use oxlens_sfu.Rtcp.Twcc.{unwrapped, highest, unwrap}

-- The numbers of packets as they come.
unfoldable pub unwrap_all : Option ℤ → List ℕ → List ℤ
unwrap_all last [] = []
unwrap_all last (seq ∷ seqs) = let (last', u) = unwrap last seq in u ∷ unwrap_all last' seqs

-- Each number is less than half the range away from the highest one before it.
abbrev pub IsNear : ℕ → List ℕ → Type 0
IsNear h [] = Unit
IsNear h (n ∷ ns) = (h ≤ n + 32768) × (n < h + 32768) × IsNear (if ltb h n then n else h) ns

unwrapped-near :
    (h n : ℕ) → h ≤ n + 32768 → n < h + 32768 → unwrapped (some (ℤ.pos h)) (n % 65536) ≡ ℤ.pos n
unfolding unwrapped wrap ◌+ℤ◌
unwrapped-near h n a b = ground arith

highest-pos : (h n : ℕ) → highest (some (ℤ.pos h)) (ℤ.pos n) ≡ ℤ.pos (if ltb h n then n else h)
unfolding highest
highest-pos h n = ground arith

unwrap_all-near :
    (h : ℕ) (ns : List ℕ)
    → IsNear h ns
    → unwrap_all (some (ℤ.pos h)) (map (λ n. n % 65536) ns) ≡ map ℤ.pos ns
unfolding unwrap_all unwrap
unwrap_all-near h [] near = refl
unwrap_all-near h (n ∷ ns) near =
    rw (unwrapped-near h n near.0 near.1, highest-pos h n)
      (ap (λ l. ℤ.pos n ∷ l) (unwrap_all-near (if ltb h n then n else h) ns near.2))

-- Packets whose numbers, of any size, start below 65536 and are each less than half of it away from
-- the highest one before, are numbered by their true numbers, although only 16 bits of each come.
pub unwrap_all_lem :
    (n : ℕ) (ns : List ℕ)
    → n < 65536
    → IsNear n ns
    → unwrap_all none (map (λ m. m % 65536) (n ∷ ns)) ≡ map ℤ.pos (n ∷ ns)
unfolding unwrap_all unwrap unwrapped highest
unwrap_all_lem n ns h near =
    let e : n % 65536 ≡ n = omega arith in rw e (ap (λ l. ℤ.pos n ∷ l) (unwrap_all-near n ns near))
