-- ===== src/Mesh/Wire.antt =====
-- crates/oxmesh/src/wire.rs: the messages between the nodes, their encoding and their frames.
pub mod Cursor
pub mod Message
pub mod Decode
pub mod Numbers
pub mod Pieces
pub mod RoundTrip
pub mod Frames
pub mod Reassembly
