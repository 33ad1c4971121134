-- ===== src/Kv.antt =====
-- crates/kv/src/lib.rs: the power-loss-safe key-value store in the data EEPROM.
pub mod Memory
pub mod Eeprom
pub mod Layout
pub mod Scan
pub mod Write
pub mod Flip
pub mod Store
pub mod Maintenance
pub mod Log
pub mod Steps
pub mod Words
pub mod Chain
pub mod Clear
pub mod Append
pub mod View
pub mod Blank
pub mod Table
pub mod Live
pub mod Copy
pub mod Pack
pub mod Superblock
pub mod Commit
pub mod Dead
pub mod Compaction
pub mod Setting
pub mod Removing
pub mod Wiping
pub mod Formatting
pub mod FirstSet
pub mod Commands
pub mod Plan
pub mod Advance
pub mod Slicing
pub mod Progress
pub mod Tail
pub mod Slices
pub mod Unseen
pub mod Ending
pub mod Finish
pub mod Pending
pub mod Appending
pub mod SettingWith
pub mod Managing
pub mod CompactWith
pub mod Session
pub mod Samples
mod Tests
mod SliceTests
