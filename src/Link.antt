-- ===== src/Link.antt =====
-- crates/oxsfud/src/link: the links to the clients.
pub mod Tcp
pub mod Stun
pub mod Paths
pub mod Creds
pub mod Transport
pub mod Receive
mod Runs
mod BindingRuns
