-- ===== src/Schema.antt =====
-- vtr-rs/src/schema.rs: the canonical form of typed payloads.
pub mod Payload
