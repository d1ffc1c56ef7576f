-- ===== src/Floor.antt =====
-- crates/oxsfud/src/flr: floor control of one room.
pub mod Types
pub mod Queue
pub mod Participant
pub mod Causes
pub mod Arbiter
pub mod Receive
pub mod Membership
pub mod Timers
pub mod Framing
pub mod Standing
pub mod Invariant
pub mod Keeps
pub mod Rooms
pub mod Events
pub mod Preserved
pub mod Steps
pub mod Reach
pub mod Binding
pub mod Follows
pub mod Media
pub mod Slot
pub mod Leave
pub mod Order
pub mod Acked
pub mod Channel
pub mod Numbering
pub mod Delivery
mod Runs
