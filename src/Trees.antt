-- ===== src/Trees.antt =====
-- The Merkle trees of `lib/src/merkle_trees`.
pub mod Types
pub mod Helpers
pub mod Root
pub mod Complete
pub mod AppendOnly
pub mod Mutable
pub mod Indexed
