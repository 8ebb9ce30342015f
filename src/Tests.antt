-- ===== src/Tests.antt =====
-- Runs of the definitions and instances of the theorems at concrete inputs.
pub mod Trees
pub mod Mutable
pub mod Events
pub mod Client
pub mod Proposer
pub mod Operations
pub mod Transactions
pub mod Assembly
