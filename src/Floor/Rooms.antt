-- ===== src/Floor/Rooms.antt =====
-- The set of members of a floor as a function of the additions and removals.
use oxlens_sfu.Base.{◌==◌, ◌≡◌, refl, not, ◌&&◌, ◌||◌, List, [], ◌∷◌, arith}
use oxlens_sfu.Floor.Types.{UserId}
use oxlens_sfu.Floor.Queue.{contains, add_member, remove_member}

pub contains-add :
    (u : UserId) (us : List UserId) (v : UserId)
    → contains (add_member u us) v ≡ (u == v || contains us v)
unfolding contains add_member
contains-add u [] v = refl
contains-add u (x ∷ xs) v = ground (arith, contains-add u xs v)

pub contains-remove :
    (u : UserId) (us : List UserId) (v : UserId)
    → contains (remove_member u us) v ≡ (not (u == v) && contains us v)
unfolding contains remove_member
contains-remove u [] v = ground arith
contains-remove u (x ∷ xs) v = ground (arith, contains-remove u xs v)
