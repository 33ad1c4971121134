-- ===== src/Protocol.antt =====
-- crates/protocol/src: the console frames between a device and its host, and the queue before them.
pub mod Crc
pub mod Frame
pub mod Ring
