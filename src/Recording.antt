-- ===== src/Recording.antt =====
-- vtr-rs/src/recording: the parts of the recorder that threads share.
pub mod Gate
pub mod PayloadPool
pub mod Ending
