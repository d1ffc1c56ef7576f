-- ===== src/Hub.antt =====
-- crates/oxhubd/src/bus: the choice of the node that serves a room.
pub mod Placement
pub mod Stable
pub mod Maps
pub mod View
pub mod ViewRuns
mod Runs
