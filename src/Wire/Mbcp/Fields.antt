-- ===== src/Wire/Mbcp/Fields.antt =====
-- crates/oxsig/src/floor.rs: the numbers of the fields.
use oxlens_sfu.Base.{ℕ}

abbrev pub priority : ℕ
priority = 0

abbrev pub duration : ℕ
duration = 1

abbrev pub cause : ℕ
cause = 2

abbrev pub qinfo : ℕ
qinfo = 3

abbrev pub speaker : ℕ
speaker = 4

abbrev pub seq : ℕ
seq = 8

abbrev pub acktype : ℕ
acktype = 12

abbrev pub prev : ℕ
prev = 26

abbrev pub reason : ℕ
reason = 27

abbrev pub room : ℕ
room = 29
