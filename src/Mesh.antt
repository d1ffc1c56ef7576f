-- ===== src/Mesh.antt =====
-- crates/oxmesh: the bus between the nodes.
pub mod KeyExpr
pub mod Wire
pub mod SubIndex
pub mod Peering
pub mod Tokens
pub mod Queries
pub mod Session
mod Runs
mod QueryRuns
mod RouterRuns
