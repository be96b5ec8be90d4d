-- ===== src/Wire.antt =====
-- vtr-rs/src/varint.rs and vtr-rs/src/wire.rs: the integers, cursors and column blocks on which every
-- part of a recording is written.
pub mod Varint
pub mod Zigzag
pub mod Cursor
pub mod Columns
