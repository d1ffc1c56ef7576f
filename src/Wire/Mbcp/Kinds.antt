-- ===== src/Wire/Mbcp/Kinds.antt =====
-- crates/oxsig/src/floor.rs: the numbers of the message types.
use oxlens_sfu.Base.{ℕ}

abbrev pub request : ℕ
request = 0

abbrev pub granted : ℕ
granted = 1

abbrev pub taken : ℕ
taken = 2

abbrev pub deny : ℕ
deny = 3

abbrev pub release : ℕ
release = 4

abbrev pub idle : ℕ
idle = 5

abbrev pub revoke : ℕ
revoke = 6

abbrev pub qpos_req : ℕ
qpos_req = 8

abbrev pub qinfo : ℕ
qinfo = 9

abbrev pub ack : ℕ
ack = 10
