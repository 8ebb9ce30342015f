-- ===== src/Trees/Types.antt =====
-- The types that the Merkle trees share: `lib/src/merkle_trees/trees.rs`.
use nightfall_4_ce.Common.{ℕ}

-- `jf_primitives::trees::Directions`, of which the source names these two values.
pub data Directions : Type 0 where
  hash_with_this_node_on_left hash_with_this_node_on_right : Directions

-- The messages of `Error(String)` are left out.
pub data MerkleTreeError : Type 0 where
  tree_is_full incorrect_batch_size no_leaves database_error tree_not_found : MerkleTreeError
  tree_already_exists leaf_exists serialization_error invalid_proof : MerkleTreeError
  item_not_found invalid_index other_error hashing_error : MerkleTreeError

-- How a call fails: by an error that it returns, or by a panic.
pub data Failure : Type 0 where
  error : MerkleTreeError → Failure
  panic : Failure

pub record TreeMetadata : Type 0 where
  pub tree_height : ℕ
  pub sub_tree_height : ℕ
  pub sub_tree_count : ℕ
  pub root : ℕ
