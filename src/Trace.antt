-- ===== src/Trace.antt =====
-- vtr-rs/src/trace: the reader of a whole recording. Only its page cache is here.
pub mod Cache
