-- ===== src/Wire/Mbcp.antt =====
-- crates/oxsig/src/floor.rs: floor control messages, a head, a count and the fields.
pub mod Kinds
pub mod Fields
pub mod Message
pub mod Build
pub mod RoundTrip
