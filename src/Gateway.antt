-- ===== src/Gateway.antt =====
-- crates/gateway/src: the gateway's downlink queue and node registry.
pub mod Queue
pub mod Registry
