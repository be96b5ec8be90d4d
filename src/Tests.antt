-- ===== src/Tests.antt =====
-- The theorems of this library at concrete inputs, on the code of vtr-rs/src.
pub mod Wire
pub mod Codec
pub mod Framing
pub mod Cache
pub mod Signal
pub mod Block
pub mod Xform
pub mod Transactions
pub mod Activity
pub mod Schema
pub mod Recording
