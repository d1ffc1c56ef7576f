-- ===== src/Link/Creds.antt =====
-- crates/oxsfud/src/link/creds.rs: the credentials of a connection. Random bytes are given.
use oxlens_sfu.Base.{ℕ, ◌+◌, ◌-◌, ◌%◌, List, [], ◌∷◌, map, Option, none, some, ltb, if◌then◌else◌}
use oxlens_sfu.Link.Tcp.{Bytes}
use oxlens_sfu.Link.Paths.{same_bytes}

pub record Cred : Type 0 where
  pub ufrag : Bytes
  pub pwd : Bytes

pub record Creds : Type 0 where
  pub active : Cred
  pub pending : Option Cred

pub data Checked : Type 0 where
  current : Checked
  promoted : Bytes → Checked

-- The character of `ALNUM` at a place below 62.
unfoldable pub alnum : ℕ → ℕ
alnum i = if ltb i 26 then 97 + i else if ltb i 52 then 65 + (i - 26) else 48 + (i - 52)

unfoldable pub token : Bytes → Bytes
token random = map (λ b. alnum (b % 62)) random

unfoldable pub fresh : Bytes → Bytes → Cred
fresh r8 r22 = record { ufrag = token r8; pwd = token r22 }

unfoldable pub new : Bytes → Bytes → Creds
new r8 r22 = record { active = fresh r8 r22; pending = none }

unfoldable pub ufrag_of : Option Cred → Option Bytes
ufrag_of none = none
ufrag_of (some p) = some p.ufrag

unfoldable pub restart : Creds → Cred → Creds × Option Bytes
restart c next = (record c { pending = some next }, ufrag_of c.pending)

unfoldable pub pending_pwd : Option Cred → Bytes → Option Bytes
pending_pwd none ufrag = none
pending_pwd (some p) ufrag = if same_bytes p.ufrag ufrag then some p.pwd else none

unfoldable pub pwd : Creds → Bytes → Option Bytes
pwd c ufrag =
    if same_bytes c.active.ufrag ufrag then some c.active.pwd else pending_pwd c.pending ufrag

unfoldable pub checked_pending : Creds → Option Cred → Bytes → Creds × Checked
checked_pending c none ufrag = (c, Checked.current)
checked_pending c (some p) ufrag =
    if same_bytes p.ufrag ufrag
    then (record { active = p; pending = none }, Checked.promoted c.active.ufrag)
    else (c, Checked.current)

unfoldable pub checked : Creds → Bytes → Creds × Checked
checked c ufrag = checked_pending c c.pending ufrag

unfoldable pub ufrags_with : Bytes → Option Cred → List Bytes
ufrags_with u none = u ∷ []
ufrags_with u (some p) = u ∷ p.ufrag ∷ []

unfoldable pub ufrags : Creds → List Bytes
ufrags c = ufrags_with c.active.ufrag c.pending

unfoldable pub use_of : Bytes → Option Cred → Bytes
use_of u none = u
use_of u (some p) = p.ufrag

unfoldable pub use_ufrag : Creds → Bytes
use_ufrag c = use_of c.active.ufrag c.pending
