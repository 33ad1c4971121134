-- ===== src/Radio.antt =====
-- crates/radio/src/lib.rs: airtime, the duty-cycle governor, hopping and the uplink back-off.
pub mod Ccm
pub mod Duty
pub mod Hop
pub mod Uplink
mod Tests
