-- ===== src/Track.antt =====
-- crates/oxsfud/src/trk/mod.rs: what is seen of a track in its packets.
pub mod Keyframes
pub mod Descriptors
pub mod Packets
pub mod Aggregates
mod Runs
