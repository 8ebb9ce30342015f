-- ===== src/Trees/AppendOnly/Defs.antt =====
-- The append-only tree over a frontier, `lib/src/merkle_trees/append_only.rs`. The two collections
-- of a tree are two optional documents with the id 0; the strings of the frontier are the field
-- elements that they print. The Poseidon tree hash is the argument `hasher`.

use nightfall_4_ce.Common.{
  ℕ, zero, suc, ◌+◌, ◌%◌, ◌^◌, List, [], ◌∷◌, Bool, true, false, Option, none, some, ltb, ◌==◌, not,
  if◌then◌else◌, length, get_elem?, set, replicate, take, drop, Result, ok, err, ◌>>=◌, ◌>>◌,
  fail_if, ok_or,
}
use nightfall_4_ce.Trees.Types.{
  Directions, hash_with_this_node_on_left, hash_with_this_node_on_right, Failure, error, panic,
  TreeMetadata, incorrect_batch_size, tree_not_found, item_not_found, tree_is_full,
  serialization_error, database_error,
}
use nightfall_4_ce.Trees.Helpers.{make_complete_tree, index_to_directions, get_frontier_index}

-- The documents of one tree in the database.
pub record AppendOnlyStore : Type 0 where
  pub metadata : Option TreeMetadata
  pub frontier : Option (List ℕ)

-- Inserting a second document with the id 0 is a duplicate key, a database error.
unfoldable pub insert_metadata :
    TreeMetadata → AppendOnlyStore → Result Failure (Unit {0}) × AppendOnlyStore
insert_metadata doc store = elim store.metadata [
  | none ↦ (ok tt, record store { metadata = some doc })
  | some _ ↦ (err (error database_error), store)
]

unfoldable pub insert_frontier :
    List ℕ → AppendOnlyStore → Result Failure (Unit {0}) × AppendOnlyStore
insert_frontier doc store = elim store.frontier [
  | none ↦ (ok tt, record store { frontier = some doc })
  | some _ ↦ (err (error database_error), store)
]

unfoldable pub then_insert_frontier :
    List ℕ
    → Result Failure (Unit {0}) × AppendOnlyStore
    → Result Failure (Unit {0}) × AppendOnlyStore
then_insert_frontier doc (ok _, store) = insert_frontier doc store
then_insert_frontier doc (err e, store) = (err e, store)

unfoldable pub new_append_only_tree :
    ℕ → ℕ → AppendOnlyStore → Result Failure (Unit {0}) × AppendOnlyStore
unfolding insert_metadata insert_frontier then_insert_frontier
new_append_only_tree height sub_height store = then_insert_frontier (replicate height 0) (
    insert_metadata
      (record { tree_height = height; sub_tree_height = sub_height; sub_tree_count = 0; root = 0 })
      store)

-- `leaves.chunks(capacity)`, with the number of the leaves as fuel.
unfoldable pub chunk_list {ℓ} : {A : Type ℓ} → ℕ → ℕ → List A → List (List A)
chunk_list zero capacity leaves = []
chunk_list (suc fuel) capacity [] = []
chunk_list (suc fuel) capacity (leaf ∷ leaves) =
    take capacity (leaf ∷ leaves) ∷ chunk_list fuel capacity (drop capacity (leaf ∷ leaves))

unfoldable pub chunks {ℓ} : {A : Type ℓ} → ℕ → List A → List (List A)
unfolding chunk_list
chunks capacity leaves = chunk_list (length leaves) capacity leaves

-- The variables that the loop over the batches updates.
pub record Progress : Type 0 where
  pub frontier : List ℕ
  pub sub_tree_count : ℕ
  pub root : ℕ

-- `path.pop()`; the path is never empty.
unfoldable pub last_or : ℕ → List ℕ → ℕ
last_or d [] = d
last_or d (x ∷ xs) = last_or x xs

-- The frontier with the new hash, and the root. An index out of range is a panic.
unfoldable pub update_frontier : Progress → Option (List ℕ) → Option ℕ → Result Failure Progress
update_frontier p none index = err panic
update_frontier p (some path) none = err panic
update_frontier p (some path) (some index) = elim (get_elem? path index) [
  | none ↦ err panic
  | some hash ↦
      if ltb index (length p.frontier)
      then ok (record {
        frontier = set p.frontier index hash;
        sub_tree_count = p.sub_tree_count + 1;
        root = last_or 0 path;
      })
      else err panic
]

-- The checks on the documents and the leaves, in the source's order. A `false` means that there
-- are no leaves to add.
unfoldable pub check_space : TreeMetadata → List ℕ → Result Failure (TreeMetadata × List ℕ × Bool)
check_space meta frontier = do
  fail_if (ltb (2 ^ meta.tree_height) meta.sub_tree_count) (error tree_is_full)
  fail_if (not (length frontier == meta.tree_height)) (error serialization_error)
  ok (meta, frontier, true)

unfoldable pub check_append :
    List ℕ → AppendOnlyStore → Result Failure (TreeMetadata × List ℕ × Bool)
unfolding check_space
check_append leaves store = do
  meta ← ok_or store.metadata (error tree_not_found)
  frontier ← ok_or store.frontier (error item_not_found)
  fail_if (not (length leaves % 2 ^ meta.sub_tree_height == 0)) (error incorrect_batch_size)
  if length leaves == 0 then ok (meta, frontier, false) else check_space meta frontier

-- Both documents are replaced, if the tree is to be updated. The root in the metadata stays.
unfoldable pub write_back :
    Bool
    → TreeMetadata
    → AppendOnlyStore
    → Result Failure Progress
    → Result Failure ℕ × AppendOnlyStore
write_back update_tree meta store (err e) = (err e, store)
write_back true meta store (ok p) = (
  ok p.root,
  record {
    metadata = some (record meta { sub_tree_count = p.sub_tree_count });
    frontier = some p.frontier;
  },
)
write_back false meta store (ok p) = (ok p.root, store)

-- `make_complete_tree(...)[0]`.
unfoldable pub first_node : Option (List ℕ) → Result Failure ℕ
first_node none = err panic
first_node (some []) = err panic
first_node (some (root ∷ _)) = ok root

module _ (hasher : ℕ → ℕ → ℕ) where
  -- The hash on the next level, by the direction; `frontier[level]` out of range is a panic.
  unfoldable pub next_hash : List ℕ → Directions → ℕ → ℕ → Option ℕ
  next_hash frontier hash_with_this_node_on_left level hash = elim (get_elem? frontier level) [
    | none ↦ none
    | some node ↦ some (hasher node hash)
  ]
  next_hash frontier hash_with_this_node_on_right level hash = some (hasher hash 0)

  -- The hashes from the sub tree's root to the root of the tree, `path` of the source.
  unfoldable pub hash_path : List ℕ → List Directions → ℕ → ℕ → Option (List ℕ)
  hash_path frontier [] level hash = some (hash ∷ [])
  hash_path frontier (direction ∷ directions) level hash =
      elim (next_hash frontier direction level hash) [
        | none ↦ none
        | some above ↦ elim (hash_path frontier directions (level + 1) above) [
          | none ↦ none
          | some path ↦ some (hash ∷ path)
        ]
      ]

  -- One sub tree, given by its root.
  unfoldable pub append_root : ℕ → ℕ → Progress → Result Failure Progress
  unfolding hash_path next_hash last_or update_frontier
  append_root height sub_tree_root p =
      update_frontier p
        (hash_path p.frontier (index_to_directions p.sub_tree_count height) 0 sub_tree_root)
        (get_frontier_index p.sub_tree_count)

  unfoldable pub sub_tree_root_of : ℕ → List ℕ → Result Failure ℕ
  unfolding first_node
  sub_tree_root_of sub_height batch = first_node (make_complete_tree sub_height hasher batch)

  unfoldable pub append_batches : TreeMetadata → List (List ℕ) → Progress → Result Failure Progress
  append_batches meta [] p = ok p
  append_batches meta (batch ∷ batches) p = do
    sub_tree_root ← sub_tree_root_of meta.sub_tree_height batch
    p' ← append_root meta.tree_height sub_tree_root p
    append_batches meta batches p'

  unfoldable pub run_append :
      List ℕ
      → Bool
      → AppendOnlyStore
      → Result Failure (TreeMetadata × List ℕ × Bool)
      → Result Failure ℕ × AppendOnlyStore
  run_append leaves update_tree store (err e) = (err e, store)
  run_append leaves update_tree store (ok (meta, frontier, false)) = (ok meta.root, store)
  run_append leaves update_tree store (ok (meta, frontier, true)) =
      write_back update_tree meta store (
        append_batches meta (chunks (2 ^ meta.sub_tree_height) leaves)
          (record { frontier = frontier; sub_tree_count = meta.sub_tree_count; root = 0 }))

  unfoldable pub append_sub_trees :
      List ℕ → Bool → AppendOnlyStore → Result Failure ℕ × AppendOnlyStore
  unfolding check_append write_back run_append append_batches
  append_sub_trees leaves update_tree store =
      run_append leaves update_tree store (check_append leaves store)
