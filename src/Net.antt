-- ===== src/Net.antt =====
-- crates/net, the decision kernels of the radio network layer, with the parts of
-- firmware/src/radio/net/mod.rs that run them against the EEPROM.
pub mod Falling
pub mod Addr
pub mod Nonce
pub mod TxCounter
pub mod Replay
pub mod Epoch
pub mod Pairing
pub mod Ack
pub mod Device
