-- ===== src/Proposer/Sync.antt =====
-- The proposer's handling of a proposed block, `nightfall_proposer/src/driven/nightfall_event.rs`.
pub mod Store
pub mod Defs
pub mod Steps
pub mod Checks
pub mod Laws
pub mod Repeat
