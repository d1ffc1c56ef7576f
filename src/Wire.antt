-- ===== src/Wire.antt =====
-- crates/oxsig: the wire formats of the client protocol.
pub mod Frame
pub mod Op
pub mod Mbcp
mod Runs
pub mod DataChannel
