-- ===== src/Trees/Indexed.antt =====
-- The leaves of the indexed Merkle tree, `lib/src/merkle_trees/indexed.rs`.
pub mod Defs
pub mod Lookup
pub mod Chain
pub mod Links
pub mod Laws
pub mod State
pub mod Tree
pub mod Circuit
pub mod Membership
pub mod Growth
pub mod Invariant
