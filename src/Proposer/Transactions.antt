-- ===== src/Proposer/Transactions.antt =====
-- The transactions and deposits that the proposer takes into its mempool,
-- `nightfall_proposer/src/driven/nightfall_client_transaction.rs`.
pub mod Defs
pub mod Deposits
pub mod Pending
pub mod Admitted
pub mod Repeat
