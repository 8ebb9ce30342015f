-- ===== src/Trees/Indexed/Circuit.antt =====
-- The insertions of nullifiers for the circuit, of `impl IndexedTree` in
-- `lib/src/merkle_trees/indexed.rs`.
use nightfall_4_ce.Common.{
  ℕ, Bool, ◌+◌, ◌*◌, ◌^◌, true, false, not, List, [], ◌∷◌, map, Option, none, some, ltb, ◌==◌,
  if◌then◌else◌, length,
}
use nightfall_4_ce.Trees.Types.{
  TreeMetadata, leaf_exists, item_not_found, other_error, incorrect_batch_size,
}
use nightfall_4_ce.Trees.AppendOnly.Defs.{chunks}
use nightfall_4_ce.Trees.Indexed.Defs.{
  IndexedLeaf, Leaves, default_leaf, get_leaf, get_low_leaf, store_leaf,
}
use nightfall_4_ce.Trees.Indexed.State.{
  Op, ◌>>=◌, ◌>>◌, return_ok, throw_if, or_throw, read_leaves, read_tree, write_leaves, on_tree,
}
use nightfall_4_ce.Trees.Indexed.Tree.{
  LeafDbEntry, ImtCircuitInsertionInfo, leaf_to_entry, zero_path, leaf_hash,
  get_non_membership_proof,
}
use nightfall_4_ce.Trees.Mutable.Defs.{MembershipProof}
use nightfall_4_ce.Trees.Mutable.Update.{update_sub_tree, insert_for_circuit}

module _ (hasher : ℕ → ℕ → ℕ) (hash₃ : ℕ → ℕ → ℕ → ℕ) (default_entry : LeafDbEntry) where
  -- A nullifier whose low leaf is in the tree: its proof, and the low leaf updated in the tree.
  unfoldable pub insert_known : ℕ → ℕ → IndexedLeaf → Op MembershipProof
  insert_known value index low = do
    proof ← get_non_membership_proof hasher hash₃ default_entry value
    write_leaves (store_leaf value (some index))
    found ← read_leaves (get_leaf (some low.value) none)
    updated ← or_throw found other_error
    root ←
        on_tree (
          update_sub_tree hasher updated.id (leaf_hash hasher hash₃ default_entry updated ∷ [])
            true)
    return_ok proof

  -- A nullifier whose low leaf is itself a pending insert: a proof of zeros.
  unfoldable pub insert_pending : TreeMetadata → ℕ → ℕ → IndexedLeaf → Op MembershipProof
  insert_pending m value index low = do
    write_leaves (store_leaf value (some index))
    return_ok (record {
      node_value = leaf_hash hasher hash₃ default_entry low;
      sibling_path = zero_path m;
      leaf_index = index;
    })

  unfoldable pub insert_non_zero : TreeMetadata → ℕ → ℕ → ℕ → Op (LeafDbEntry × MembershipProof)
  unfolding insert_known insert_pending
  insert_non_zero m first_index value index = do
    lowest ← read_leaves (get_low_leaf value)
    low ← or_throw lowest other_error
    proof ←
        (if ltb low.id first_index
          then insert_known value index low
          else insert_pending m value index low)
    return_ok (leaf_to_entry low, proof)

  unfoldable pub zero_entry : TreeMetadata → LeafDbEntry × MembershipProof
  zero_entry m = (
    leaf_to_entry default_leaf,
    record { node_value = 0; sibling_path = zero_path m; leaf_index = 0 },
  )

  unfoldable pub insert_nullifier : TreeMetadata → ℕ → ℕ → ℕ → Op (LeafDbEntry × MembershipProof)
  unfolding insert_non_zero zero_entry
  insert_nullifier m first_index value index = do
    found ← read_leaves (get_leaf (some value) none)
    throw_if (elim found [ none ↦ false | some _ ↦ not (value == 0) ]) leaf_exists
    (if value == 0 then return_ok (zero_entry m) else insert_non_zero m first_index value index)

  -- The nullifiers one after the other, each with the next index.
  unfoldable pub insert_nullifiers :
      TreeMetadata → ℕ → List ℕ → ℕ → Op (List (LeafDbEntry × MembershipProof))
  unfolding insert_nullifier
  insert_nullifiers m first_index [] index = return_ok []
  insert_nullifiers m first_index (value ∷ values) index = do
    low ← insert_nullifier m first_index value index
    lows ← insert_nullifiers m first_index values (index + 1)
    return_ok (low ∷ lows)

  -- The entries of the nullifiers, with their links.
  unfoldable pub pending_entries : List ℕ → Leaves → Option (List LeafDbEntry)
  pending_entries [] ls = some []
  pending_entries (value ∷ values) ls =
      let rest = pending_entries values ls in
      if value == 0
      then elim rest [ none ↦ none | some es ↦ some (default_entry ∷ es) ]
      else elim (get_leaf (some value) none ls) [
        | none ↦ none
        | some l ↦ elim rest [ none ↦ none | some es ↦ some (leaf_to_entry l ∷ es) ]
      ]

  unfoldable pub entry_hash : LeafDbEntry → ℕ
  entry_hash e = if e.value == 0 then 0 else hash₃ e.value e.next_index e.next_value

  unfoldable pub insert_nullifiers_for_circuit : Bool → List ℕ → Op ImtCircuitInsertionInfo
  unfolding insert_nullifiers pending_entries entry_hash
  insert_nullifiers_for_circuit debug_on leaves = do
    document ← read_tree (λ s. s.metadata)
    m ← or_throw document item_not_found
    throw_if (not (2 ^ m.sub_tree_height == length leaves)) incorrect_batch_size
    lows ←
        insert_nullifiers m (m.sub_tree_count * 2 ^ m.sub_tree_height) leaves
          (m.sub_tree_count * 2 ^ m.sub_tree_height)
    found ← read_leaves (pending_entries leaves)
    pending ← or_throw found other_error
    info ← on_tree (insert_for_circuit hasher debug_on (map entry_hash pending))
    return_ok (record {
      old_root = m.root;
      circuit_info = info;
      first_index = m.sub_tree_count * 2 ^ m.sub_tree_height;
      low_nullifiers = lows;
      pending_inserts = pending;
    })

  unfoldable pub insert_all_for_circuit : Bool → List (List ℕ) → Op (List ImtCircuitInsertionInfo)
  unfolding insert_nullifiers_for_circuit
  insert_all_for_circuit debug_on [] = return_ok []
  insert_all_for_circuit debug_on (batch ∷ batches) = do
    info ← insert_nullifiers_for_circuit debug_on batch
    infos ← insert_all_for_circuit debug_on batches
    return_ok (info ∷ infos)

  -- Eight nullifiers at a time.
  unfoldable pub batch_insert_nullifiers_with_circuit_info :
      Bool → List ℕ → Op (List ImtCircuitInsertionInfo)
  unfolding insert_all_for_circuit
  batch_insert_nullifiers_with_circuit_info debug_on nullifiers =
      insert_all_for_circuit debug_on (chunks 8 nullifiers)
