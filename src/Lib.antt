-- ===== src/Lib.antt =====
-- A verification library for TOWER: the rules that keep its radio network safe and its gateway's
-- memory consistent.
--
-- The program. A TOWER device runs firmware (firmware/src, firmware/apps) on a small radio
-- microcontroller. Its decisions stand in pure crates: crates/net (counters, replay lanes, beacons,
-- acknowledgements, pairing), crates/gateway (the downlink queue and the node registry),
-- crates/radio (airtime, hopping, back-off, AES-CCM) and crates/protocol (the frames between a
-- device and its host). The firmware calls these crates between its own reads and writes of the
-- EEPROM; the parts that do so are modelled with the crates.
--
-- The files.
--   Prelude: the library names that are passed on, Boolean tests of numbers, lists, machine words.
--   Net/Addr, Net/Nonce: crates/net/src/addr.rs and nonce.rs.
--   Net/TxCounter: crates/net/src/txctr.rs. Net/Device: `Net::new`, `Net::alloc_counter` and
--     `Net::raise_tx_floor` of firmware/src/radio/net/mod.rs, which run that kernel against the
--     stored watermark. A device is the counter and the stored watermark; each write of the EEPROM
--     comes to success, to a refusal, or to an error whose record is written all the same; power
--     fails between any two steps (the relations `Step` and `Reach`).
--   Net/Replay: crates/net/src/replay.rs, with the part of `Net::recv` that follows the
--     authentication of a data frame (`receive`) and `Net::lane_accept`.
--   Net/Epoch: crates/net/src/epoch.rs, with the two parts of `Net::fhss_node_tick`
--     (firmware/src/radio/net/fhss.rs) that ask it (`scan`, `track`).
--   Net/Ack: crates/net/src/ack.rs. Net/Pairing: crates/net/src/pairing.rs, with the commit loop of
--     `pair` (firmware/apps/radio_push_button.rs), whose attempts take any time.
--   Gateway/Queue: crates/gateway/src/queue.rs.
--   Gateway/Registry: crates/gateway/src/registry.rs, over any storage with the laws of `BucketIo`
--     (a store that fails has had its effect or none) and any codec that decodes what it encoded.
--   Radio/Ccm: crates/radio/src/ccm.rs, over any block cipher with the law of `AesBlock`.
--   Radio/Duty, Radio/Hop, Radio/Uplink: crates/radio/src/lib.rs.
--   Protocol/Crc, Protocol/Frame: crates/protocol/src/crc.rs and lib.rs, over any COBS codec with
--     the laws of `Cobs`; the schema tag is an argument.
--   Protocol/Ring: crates/protocol/src/ring.rs. The queue of records it stands for is in
--     Protocol/Ring/Fifo.
--   Kv: crates/kv/src/lib.rs, the key-value store, over any EEPROM with the laws of `Eeprom`
--     (Kv/Eeprom): a write changes nothing outside its span, leaves its bytes there if it succeeds,
--     and tears at most one word if it fails, as when power is cut. That word is as it was, erased,
--     or garbled to any bytes over which no checksum passes: a 32-bit CRC that passes by accident
--     is outside the model. Kv/Memory (the bytes), Kv/Layout (constants, superblocks), Kv/Scan
--     (`scan_half`, `walk_latest`, `get_bytes`), Kv/Write (`append_end`, `blank`, `init`), Kv/Flip
--     (`flip`, `flip_step`, `flip_commit`), Kv/Store (`set_bytes`, `delete`, `wipe`) and
--     Kv/Maintenance (`maintain`) hold the definitions; the other modules below Kv hold what is
--     proved of them; Kv/Plan says what a flip at work has done and has left, and Kv/Session runs
--     the operations with the slices of maintenance between them. In a region too small for its two
--     superblocks the model's halves are empty, where the code's subtraction would underflow.
--   A component's theorems are in the modules below it, its examples in its `Tests`.
--
-- The model. Numbers are natural numbers; where the code wraps or saturates, the model writes the
-- remainder or the minimum. An address, a counter, an epoch or a slot is a `u32`, an id a `u16`. A
-- method that takes `&mut self` gives back the new state with its result. An array of options is a
-- list of options; the array that the hopping sequence shuffles is a function of the index.
-- Fuel: the search for a free id has 5, one more than the four slots; the search for a power of two
-- has 8, as the period is at most 32; the commit loop takes its fuel as an argument, and 6 is
-- enough; so does `clear` of the ring, with as much as there are bytes in use. The cutting of a
-- message into chunks of 16 bytes has as many rounds as the message has bytes. A walk over a
-- half of the store has as many rounds as there are bytes, and a record takes eight at least;
-- blanking has a round for each byte of the span and one more; the loop of `flip_commit` has two
-- more than the bytes of a half, and ends in its first round.
--
-- Not modelled: an EEPROM whose reads fail (in the store), the messages in the console frames
-- and their serialisation, the shell, the handshake and the block cipher of the radio frames,
-- the flasher, the host programs (cli), and the drivers and applications of the firmware.
pub mod Prelude
pub mod Net
pub mod Gateway
pub mod Radio
pub mod Protocol
pub mod Kv
