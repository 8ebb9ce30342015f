-- ===== src/Proposer/Assembly.antt =====
-- The assembly of a block by the proposer, `nightfall_proposer/src/services/assemble_block.rs`.
pub mod Mempool
pub mod Defs
pub mod Block
pub mod Groups
pub mod Selected
pub mod Laws
pub mod Assemble
pub mod Lost
