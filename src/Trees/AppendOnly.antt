-- ===== src/Trees/AppendOnly.antt =====
-- The append-only tree, `lib/src/merkle_trees/append_only.rs`.
pub mod Defs
pub mod Frontier
pub mod Walk
pub mod Blocks
pub mod Append
pub mod Laws
