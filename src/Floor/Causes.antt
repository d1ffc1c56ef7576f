-- ===== src/Floor/Causes.antt =====
-- crates/oxsig/src/floor.rs: causes of a Floor Deny and of a Floor Revoke.
use oxlens_sfu.Base.{ℕ}

abbrev pub only_one : ℕ
only_one = 3

abbrev pub retry_after : ℕ
retry_after = 4

abbrev pub recv_only : ℕ
recv_only = 5

abbrev pub queue_full : ℕ
queue_full = 7

abbrev pub not_pubroom : ℕ
not_pubroom = 101

abbrev pub no_permission : ℕ
no_permission = 102

abbrev pub other_reason : ℕ
other_reason = 255

abbrev pub revoke_too_long : ℕ
revoke_too_long = 2

abbrev pub revoke_no_permission : ℕ
revoke_no_permission = 3

abbrev pub revoke_preempted : ℕ
revoke_preempted = 4

-- `RELEASE as u32`, what an acknowledgement of a release names.
abbrev pub release_type : ℕ
release_type = 4
