-- ===== src/Trees/Indexed/Tree.antt =====
-- `impl IndexedTree` in `lib/src/merkle_trees/indexed.rs`. The Poseidon hash of three elements is the
-- argument `hash₃`, the tree hash of two `hasher`, and `LeafDBEntry::default()` the argument
-- `default_entry`.
use nightfall_4_ce.Common.{
  ℕ, ◌+◌, ◌-◌, ◌*◌, ◌^◌, Bool, true, false, List, [], ◌∷◌, map, Option, none, some, leb, ◌==◌,
  if◌then◌else◌, replicate,
}
use nightfall_4_ce.Common.Sort.{sort}
use nightfall_4_ce.Trees.Types.{
  TreeMetadata, leaf_exists, item_not_found, other_error, no_leaves, hash_with_this_node_on_left,
}
use nightfall_4_ce.Trees.Indexed.Defs.{
  IndexedLeaf, Leaves, get_leaf, get_low_leaf, store_leaf, new_indexed_leaves_db,
}
use nightfall_4_ce.Trees.Indexed.State.{
  Op, ◌>>=◌, ◌>>◌, return_ok, throw_if, or_throw, read_leaves, read_tree, write_leaves, on_tree,
}
use nightfall_4_ce.Trees.Mutable.Store.{MutableStore, get_node, get_root, new_mutable_tree}
use nightfall_4_ce.Trees.Mutable.Defs.{
  PathElement, MembershipProof, CircuitInsertionInfo, sibling_path_loop, insert_leaf,
  append_sub_trees,
}
use nightfall_4_ce.Trees.Mutable.Update.{update_sub_tree}

-- `jf_primitives::trees::imt`: a leaf's entry, and what the circuit needs of an insertion.
pub record LeafDbEntry : Type 0 where
  pub value : ℕ
  pub index : ℕ
  pub next_index : ℕ
  pub next_value : ℕ

pub record ImtCircuitInsertionInfo : Type 0 where
  pub old_root : ℕ
  pub circuit_info : CircuitInsertionInfo
  pub first_index : ℕ
  pub low_nullifiers : List (LeafDbEntry × MembershipProof)
  pub pending_inserts : List LeafDbEntry

unfoldable pub leaf_to_entry : IndexedLeaf → LeafDbEntry
leaf_to_entry l = record {
  value = l.value;
  index = l.id;
  next_index = l.next_index;
  next_value = l.next_value;
}

-- `dedup`: of equal neighbours the first stays.
unfoldable pub dedup_after : ℕ → List ℕ → List ℕ
dedup_after x [] = []
dedup_after x (y ∷ ys) =
    let same = dedup_after x ys in
    let other = dedup_after y ys in if x == y then same else y ∷ other

unfoldable pub dedup : List ℕ → List ℕ
unfolding dedup_after
dedup [] = []
dedup (x ∷ xs) = x ∷ dedup_after x xs

-- The values of the low leaves, of those that have one.
unfoldable pub low_values : List ℕ → Leaves → List ℕ
low_values [] ls = []
low_values (v ∷ vs) ls = elim (get_low_leaf v ls) [
  | none ↦ low_values vs ls
  | some low ↦ low.value ∷ low_values vs ls
]

-- The documents of some values, if they are all there.
unfoldable pub get_all : List ℕ → Leaves → Option (List IndexedLeaf)
get_all [] ls = some []
get_all (v ∷ vs) ls = elim (get_leaf (some v) none ls) [
  | none ↦ none
  | some l ↦ elim (get_all vs ls) [ none ↦ none | some rest ↦ some (l ∷ rest) ]
]

unfoldable pub any_stored : List ℕ → Leaves → Bool
any_stored [] ls = false
any_stored (v ∷ vs) ls = elim (get_leaf (some v) none ls) [
  | none ↦ any_stored vs ls
  | some _ ↦ if v == 0 then any_stored vs ls else true
]

-- The values one after the other; a zero takes an index and is not stored.
unfoldable pub store_values : List ℕ → ℕ → Op (Unit {0})
store_values [] index = return_ok tt
store_values (v ∷ vs) index =
    (if v == 0 then return_ok tt else write_leaves (store_leaf v (some index)))
    >> store_values vs (index + 1)

unfoldable pub zero_path : TreeMetadata → List PathElement
zero_path m =
    replicate (m.tree_height + m.sub_tree_height)
      (record { direction = hash_with_this_node_on_left; value = 0 })

module _ (hasher : ℕ → ℕ → ℕ) (hash₃ : ℕ → ℕ → ℕ → ℕ) (default_entry : LeafDbEntry) where
  abbrev pub leaf_hash : IndexedLeaf → ℕ
  leaf_hash l = hash₃ l.value l.next_index l.next_value

  unfoldable pub new_indexed_tree : ℕ → ℕ → Op (Unit {0})
  new_indexed_tree tree_height sub_tree_height = do
    on_tree (new_mutable_tree tree_height sub_tree_height)
    write_leaves new_indexed_leaves_db
    found ← read_leaves (get_leaf (some 0) none)
    entry ← or_throw found no_leaves
    root ← on_tree (insert_leaf hasher (leaf_hash entry) true)
    return_ok tt

  -- The proof of the low leaf, from its place in the tree.
  unfoldable pub low_leaf_proof : TreeMetadata → IndexedLeaf → MutableStore → MembershipProof
  low_leaf_proof m low s =
      let height = m.tree_height + m.sub_tree_height in
      record {
        node_value = leaf_hash low;
        sibling_path = sibling_path_loop (λ i. get_node i s) height (2 ^ height - 1 + low.id);
        leaf_index = low.id;
      }

  unfoldable pub get_non_membership_proof : ℕ → Op MembershipProof
  unfolding low_leaf_proof
  get_non_membership_proof leaf = do
    throw_if (leaf == 0) leaf_exists
    found ← read_leaves (get_leaf (some leaf) none)
    throw_if (elim found [ none ↦ false | some _ ↦ true ]) leaf_exists
    document ← read_tree (λ s. s.metadata)
    m ← or_throw document item_not_found
    lowest ← read_leaves (get_low_leaf leaf)
    low ← or_throw lowest other_error
    read_tree (low_leaf_proof m low)

  unfoldable pub leaf_value_of : IndexedLeaf → ℕ
  leaf_value_of l = if l.value == 0 then 0 else leaf_hash l

  -- The low leaves again, with their new links; the last root is returned, or zero.
  unfoldable pub update_low_leaves : List IndexedLeaf → ℕ → Op ℕ
  update_low_leaves [] root = return_ok root
  update_low_leaves (l ∷ ls) root = do
    root' ← on_tree (update_sub_tree hasher l.id (leaf_hash l ∷ []) true)
    update_low_leaves ls root'

  unfoldable pub insert_some_leaves : List ℕ → Op ℕ
  unfolding any_stored low_values dedup store_values get_all leaf_value_of update_low_leaves
  insert_some_leaves values = do
    stored ← read_leaves (any_stored values)
    throw_if stored leaf_exists
    lows ← read_leaves (low_values values)
    document ← read_tree (λ s. s.metadata)
    m ← or_throw document item_not_found
    store_values values (m.sub_tree_count * 2 ^ m.sub_tree_height)
    found ← read_leaves (get_all values)
    leaves ← or_throw found other_error
    appended ← on_tree (append_sub_trees hasher (map leaf_value_of leaves) true)
    changed ← read_leaves (get_all (dedup (sort leb lows)))
    low_leaves ← or_throw changed item_not_found
    update_low_leaves low_leaves 0

  unfoldable pub insert_leaves : List ℕ → Op ℕ
  unfolding insert_some_leaves
  insert_leaves [] = on_tree (λ s. (get_root s, s))
  insert_leaves (v ∷ vs) = insert_some_leaves (v ∷ vs)
