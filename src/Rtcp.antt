-- ===== src/Rtcp.antt =====
-- crates/oxsfud/src/rtcp: the statistics of received streams.
pub mod RecvStats
pub mod Sequence
pub mod Loss
pub mod Twcc
mod Runs
mod TwccRuns
