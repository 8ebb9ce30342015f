-- ===== src/Trees/Mutable.antt =====
-- The mutable Merkle tree, `lib/src/merkle_trees/mutable.rs`.
pub mod Store
pub mod Defs
pub mod Update
pub mod Overlay
pub mod Heap
pub mod Rows
pub mod Place
pub mod Append
pub mod Laws
pub mod Agree
pub mod Proofs
pub mod Leaf
pub mod Membership
pub mod Circuit
pub mod Change
pub mod Insert
pub mod Batch
