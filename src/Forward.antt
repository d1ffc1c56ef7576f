-- ===== src/Forward.antt =====
-- crates/oxsfud/src/fwd: rewriting of forwarded packets.
pub mod Rewriter
pub mod Switch
pub mod Gapless
mod Runs
pub mod Octets
