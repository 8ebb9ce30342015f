-- ===== src/Proposer.antt =====
-- The proposer, `nightfall_proposer`.
pub mod Sync
pub mod Assembly
pub mod Transactions
