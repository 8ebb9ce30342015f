-- ===== src/Client/Selection.antt =====
-- The selection of commitments, `nightfall_client/src/services/commitment_selection.rs`.
pub mod Defs
pub mod Pairs
