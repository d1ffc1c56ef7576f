-- ===== src/Mesh/Session.antt =====
-- crates/oxmesh/src/session.rs: what is queued for a peer, and what is read from it.
pub mod Outbox
pub mod Reading
pub mod Stream
pub mod Order
pub mod Framed
pub mod Delivery
pub mod Drain
