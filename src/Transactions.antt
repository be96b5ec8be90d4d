-- ===== src/Transactions.antt =====
-- vtr-rs/src/transactions: transaction pages. Bounds and Query are mod.rs, Time is time.rs.
pub mod Bounds
pub mod Query
pub mod Time
