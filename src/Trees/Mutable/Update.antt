-- ===== src/Trees/Mutable/Update.antt =====
-- `update_sub_tree` and the insertions for the circuit, of `impl MutableTree` in
-- `lib/src/merkle_trees/mutable.rs`.
use nightfall_4_ce.Common.{
  ℕ, ◌+◌, ◌-◌, ◌*◌, ◌^◌, Bool, true, false, not, List, [], ◌∷◌, Option, none, some, ltb, ◌==◌,
  if◌then◌else◌, length, drop, ◌%◌, Result, ok, err,
}
use nightfall_4_ce.Trees.Types.{
  Failure, error, panic, TreeMetadata, tree_not_found, incorrect_batch_size, invalid_index,
  no_leaves,
}
use nightfall_4_ce.Trees.Helpers.{make_complete_tree}
use nightfall_4_ce.Trees.AppendOnly.Defs.{chunks}
use nightfall_4_ce.Trees.Mutable.Store.{Node, MutableStore, get_node, set_nodes, flush_cache}
use nightfall_4_ce.Trees.Mutable.Defs.{
  MembershipProof, CircuitInsertionInfo, get_membership_proof, is_power_of_two, ilog2,
  place_sub_tree, append_sub_trees,
}

-- `height_to_use`: how many levels are above the root of the sub tree. A difference below zero is a
-- panic.
unfoldable pub levels_above : TreeMetadata → ℕ → Option ℕ
levels_above m k =
    if k == m.sub_tree_height
    then some m.tree_height
    else if ltb (m.tree_height + m.sub_tree_height) k
    then none
    else some (m.tree_height + m.sub_tree_height - k)

unfoldable pub flush_if : Bool → MutableStore → MutableStore
unfolding flush_cache
flush_if true s = flush_cache s
flush_if false s = s

-- The writes, and the root in the metadata, whatever `update_tree` is.
unfoldable pub finish_update :
    TreeMetadata → Bool → Option (List Node × ℕ) → MutableStore → Result Failure ℕ × MutableStore
unfolding flush_if
finish_update m update_tree none s = (err panic, s)
finish_update m update_tree (some (us, hash)) s = (
  ok hash,
  record (flush_if update_tree (set_nodes update_tree us s)) {
    metadata = some (record m { root = hash });
  },
)

module _ (hasher : ℕ → ℕ → ℕ) where
  -- A single leaf has no rows below it; else there is a row for each level of the tree's sub trees.
  unfoldable pub place_leaves : TreeMetadata → ℕ → List ℕ → MutableStore → Option (List Node × ℕ)
  unfolding levels_above
  place_leaves m sub_tree_index leaves s =
      elim (make_complete_tree (ilog2 (length leaves) (length leaves)) hasher leaves) [
        | none ↦ none
        | some sub_tree ↦ elim (levels_above m (ilog2 (length leaves) (length leaves))) [
          | none ↦ none
          | some height ↦
              place_sub_tree hasher (λ i. get_node i s) height
                (if length leaves == 1 then 0 else m.sub_tree_height)
                (2 ^ height - 1 + sub_tree_index) sub_tree
        ]
      ]

  unfoldable pub update_sub_tree :
      ℕ → List ℕ → Bool → MutableStore → Result Failure ℕ × MutableStore
  unfolding place_leaves finish_update
  update_sub_tree sub_tree_index leaves update_tree s = elim s.metadata [
    | none ↦ (err (error tree_not_found), s)
    | some m ↦
        if not (is_power_of_two (length leaves) (length leaves))
        then (err (error incorrect_batch_size), s)
        else if length leaves == 0
        then (err (error no_leaves), s)
        else if not (ltb sub_tree_index (2 ^ (m.tree_height + m.sub_tree_height)))
        then (err (error invalid_index), s)
        else finish_update m update_tree (place_leaves m sub_tree_index leaves s) s
  ]

  -- What is returned after the append. `old_proof` is the proof from the bottom of the sub tree.
  unfoldable pub circuit_info :
      TreeMetadata
      → List ℕ
      → MembershipProof
      → Result Failure (ℕ × ℕ) × MutableStore
      → Result Failure CircuitInsertionInfo × MutableStore
  circuit_info m commitments old_proof (err e, s) = (err e, s)
  circuit_info m commitments old_proof (ok (new_root, _), s) = (
    ok (record {
      old_root = m.root;
      new_root = new_root;
      proof = record {
        node_value = 0;
        sibling_path = drop m.sub_tree_height old_proof.sibling_path;
        leaf_index = m.sub_tree_count;
      };
      leaf_count = m.sub_tree_count * 2 ^ m.sub_tree_height + length commitments;
      leaves = commitments;
    }),
    s,
  )

  unfoldable pub insert_for_circuit :
      Bool → List ℕ → MutableStore → Result Failure CircuitInsertionInfo × MutableStore
  unfolding circuit_info
  insert_for_circuit debug_on commitments s = elim s.metadata [
    | none ↦ (err (error tree_not_found), s)
    | some m ↦
        if not (length commitments == 2 ^ m.sub_tree_height)
        then (err (error incorrect_batch_size), s)
        else elim (get_membership_proof debug_on none
            (some (m.sub_tree_count * 2 ^ m.sub_tree_height)) s) [
              | err e ↦ (err e, s)
              | ok old_proof ↦
                  circuit_info m commitments old_proof (append_sub_trees hasher commitments true s)
            ]
  ]

  -- An error of one batch is a panic, `expect`.
  unfoldable pub insert_chunks :
      Bool
      → List (List ℕ)
      → MutableStore
      → Result Failure (List CircuitInsertionInfo) × MutableStore
  insert_chunks debug_on [] s = (ok [], s)
  insert_chunks debug_on (batch ∷ batches) s =
      let (inserted, s') = insert_for_circuit debug_on batch s in
      elim inserted [
        | err _ ↦ (err panic, s')
        | ok info ↦
            let (rest, s'') = insert_chunks debug_on batches s' in
            elim rest [ err e ↦ (err e, s'') | ok infos ↦ (ok (info ∷ infos), s'') ]
      ]

  unfoldable pub batch_insert_with_circuit_info :
      Bool → List ℕ → MutableStore → Result Failure (List CircuitInsertionInfo) × MutableStore
  unfolding insert_chunks
  batch_insert_with_circuit_info debug_on commitments s = elim s.metadata [
    | none ↦ (err (error tree_not_found), s)
    | some m ↦
        if not (length commitments % 2 ^ m.sub_tree_height == 0)
        then (err (error incorrect_batch_size), s)
        else insert_chunks debug_on (chunks (2 ^ m.sub_tree_height) commitments) s
  ]
