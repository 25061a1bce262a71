-- ===== src/Dbc.antt =====
-- crates/cantools-dbc/src/lib.rs: decoding of frames by DBC databases.
pub mod Bits
pub mod Types
pub mod Decoder
pub mod LittleEndian
pub mod BigEndian
pub mod SignExtend
pub mod Extract
pub mod Signals
pub mod Frames
mod Tests
