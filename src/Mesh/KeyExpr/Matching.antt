-- ===== src/Mesh/KeyExpr/Matching.antt =====
-- crates/oxmesh/src/keyexpr.rs: what an expression matches, with no text and no search in it.
use oxlens_sfu.Base.{◌≡◌, false, List, [], ◌∷◌, ◌⊎◌, inl, inr}
use oxlens_sfu.Mesh.Wire.Cursor.{Bytes}
use oxlens_sfu.Mesh.KeyExpr.{contains}

pub data Chunk : Type 0 where
  any : Chunk
  one : Chunk
  word : Bytes → Chunk

abbrev pub IsConcrete : Bytes → Type 0
IsConcrete w = contains 42 w ≡ false

-- A key is a list of chunks without stars; `**` stands for any number of them.
pub data Matches : List Chunk → List Bytes → Type 0 where
  ends : Matches [] []
  spell :
      {w : Bytes} {p : List Chunk} {k : List Bytes}
      → IsConcrete w
      → Matches p k
      → Matches (Chunk.word w ∷ p) (w ∷ k)
  fill :
      {w : Bytes} {p : List Chunk} {k : List Bytes}
      → IsConcrete w
      → Matches p k
      → Matches (Chunk.one ∷ p) (w ∷ k)
  leave : {p : List Chunk} {k : List Bytes} → Matches p k → Matches (Chunk.any ∷ p) k
  take :
      {w : Bytes} {p : List Chunk} {k : List Bytes}
      → IsConcrete w
      → Matches (Chunk.any ∷ p) k
      → Matches (Chunk.any ∷ p) (w ∷ k)

-- A key that both match.
pub record Meet (p q : List Chunk) : Type 0 where
  pub key : List Bytes
  pub left : Matches p key
  pub right : Matches q key

pub Meet-flip : {p q : List Chunk} → Meet p q → Meet q p
Meet-flip m = record { key = m.key; left = m.right; right = m.left }

-- Against `**`, either side can go on without its first chunk.
pub any_step :
    {p q : List Chunk} {c : Chunk} {k : List Bytes}
    → Matches (Chunk.any ∷ p) k
    → Matches (c ∷ q) k
    → Meet (Chunk.any ∷ p) q ⊎ Meet p (c ∷ q)
any_step (Matches.leave m) n = inr (record { key = _; left = m; right = n })
any_step (Matches.take h m) (Matches.spell _ n) = inl (record { key = _; left = m; right = n })
any_step (Matches.take h m) (Matches.fill _ n) = inl (record { key = _; left = m; right = n })
any_step (Matches.take h m) (Matches.leave n) =
    inl (record { key = _; left = Matches.take h m; right = n })
any_step (Matches.take h m) (Matches.take _ n) = any_step m n
