-- ===== src/Trees/Mutable/Defs.antt =====
-- `impl MutableTree` in `lib/src/merkle_trees/mutable.rs`: the operations that hash. A write that is
-- collected in `updates` runs after the loops, which read the nodes as they were.
use nightfall_4_ce.Common.{
  ℕ, zero, suc, ◌+◌, ◌-◌, ◌*◌, ◌/◌, ◌%◌, ◌^◌, Bool, true, false, ◌&&◌, ◌||◌, not, List, [], ◌∷◌,
  ◌++◌, Option, none, some, ltb, ◌==◌, if◌then◌else◌, length, get_elem?, Result, ok, err,
}
use nightfall_4_ce.Trees.Types.{
  Directions, hash_with_this_node_on_left, hash_with_this_node_on_right, Failure, error, panic,
  TreeMetadata, tree_not_found, incorrect_batch_size, tree_is_full, item_not_found, invalid_proof,
  other_error,
}
use nightfall_4_ce.Trees.Helpers.{make_complete_tree}
use nightfall_4_ce.Trees.AppendOnly.Defs.{chunks}
use nightfall_4_ce.Trees.Mutable.Store.{
  Node, MutableStore, find_value, get_node, set_nodes, flush_cache,
}

-- `jf_primitives::trees`: the element of a sibling path, and a proof, of which the source names the fields.
pub record PathElement : Type 0 where
  pub direction : Directions
  pub value : ℕ

pub record MembershipProof : Type 0 where
  pub node_value : ℕ
  pub sibling_path : List PathElement
  pub leaf_index : ℕ

pub record CircuitInsertionInfo : Type 0 where
  pub old_root : ℕ
  pub new_root : ℕ
  pub proof : MembershipProof
  pub leaf_count : ℕ
  pub leaves : List ℕ

-- The elements of the path up from a node.
unfoldable pub sibling_path_loop : (ℕ → ℕ) → ℕ → ℕ → List PathElement
sibling_path_loop get zero index = []
sibling_path_loop get (suc rounds) index =
    (if index % 2 == 0
      then record { direction = hash_with_this_node_on_left; value = get (index - 1) }
      else record { direction = hash_with_this_node_on_right; value = get (index + 1) })
    ∷ sibling_path_loop get rounds ((index - 1) / 2)

-- The index of the node that the proof is about.
unfoldable pub proof_node : ℕ → Option ℕ → Option ℕ → MutableStore → Result Failure ℕ
proof_node height leaf (some leaf_index) s = ok (leaf_index + 2 ^ height - 1)
proof_node height none none s = err (error item_not_found)
proof_node height (some leaf) none s =
    if leaf == 0
    then err (error other_error)
    else elim (find_value leaf s.nodes) [ none ↦ err (error item_not_found) | some i ↦ ok i ]

-- The proof from a node. Where debug messages are written, the message for a node that is no leaf
-- unwraps the leaf, which is a panic if there is none.
unfoldable pub proof_at : Bool → ℕ → Option ℕ → ℕ → MutableStore → Result Failure MembershipProof
unfolding sibling_path_loop
proof_at debug_on height leaf index s =
    if ltb index (2 ^ height - 1) || ltb (2 ^ (height + 1) - 2) index
    then elim leaf [
      | none ↦ err (if debug_on then panic else error invalid_proof)
      | some _ ↦ err (error invalid_proof)
    ]
    else ok (record {
      sibling_path = sibling_path_loop (λ i. get_node i s) height index;
      leaf_index = index + 1 - 2 ^ height;
      node_value = elim leaf [ none ↦ get_node index s | some l ↦ l ];
    })

unfoldable pub get_membership_proof :
    Bool → Option ℕ → Option ℕ → MutableStore → Result Failure MembershipProof
unfolding proof_node proof_at
get_membership_proof debug_on leaf leaf_index s = elim s.metadata [
  | none ↦ err (error tree_not_found)
  | some m ↦ elim (proof_node (m.tree_height + m.sub_tree_height) leaf leaf_index s) [
    | err e ↦ err e
    | ok index ↦ proof_at debug_on (m.tree_height + m.sub_tree_height) leaf index s
  ]
]

-- One row of a sub tree, from the node `j` of the tree and the node after `k` of the sub tree.
unfoldable pub row_updates : ℕ → ℕ → ℕ → List ℕ → Option (List Node)
row_updates zero j k sub_tree = some []
row_updates (suc n) j k sub_tree = elim (get_elem? sub_tree (k + 1)) [
  | none ↦ none
  | some v ↦ elim (row_updates n (j + 1) (k + 1) sub_tree) [
    | none ↦ none
    | some us ↦ some (record { value = v; id = j } ∷ us)
  ]
]

-- The rows below the root of the sub tree, downwards. An index out of range is a panic, `none`.
unfoldable pub sub_tree_updates : ℕ → ℕ → ℕ → ℕ → List ℕ → Option (List Node)
unfolding row_updates
sub_tree_updates zero node_index k span sub_tree = some []
sub_tree_updates (suc rounds) node_index k span sub_tree =
    elim (row_updates (span * 2) (node_index * 2 + 1) k sub_tree) [
      | none ↦ none
      | some us ↦
          elim (sub_tree_updates rounds (node_index * 2 + 1) (k + span * 2) (span * 2) sub_tree) [
            | none ↦ none
            | some vs ↦ some (us ++ vs)
          ]
    ]

unfoldable pub is_power_of_two : ℕ → ℕ → Bool
is_power_of_two zero n = n == 1
is_power_of_two (suc fuel) n =
    let rest = is_power_of_two fuel (n / 2) in if n == 1 then true else n % 2 == 0 && rest

-- `usize::ilog2`, on the number itself as fuel.
unfoldable pub ilog2 : ℕ → ℕ → ℕ
ilog2 zero n = 0
ilog2 (suc fuel) n = let rest = ilog2 fuel (n / 2) in if ltb n 2 then 0 else rest + 1

module _ (hasher : ℕ → ℕ → ℕ) where
  unfoldable pub hash_up : (ℕ → ℕ) → ℕ → ℕ → ℕ
  hash_up get index hash =
      if index % 2 == 0 then hasher (get (index - 1)) hash else hasher hash (get (index + 1))

  -- The loop up from a node: the writes above it, and the root.
  unfoldable pub path_updates : (ℕ → ℕ) → ℕ → ℕ → ℕ → List Node × ℕ
  unfolding hash_up
  path_updates get zero index hash = ([], hash)
  path_updates get (suc rounds) index hash =
      let above = hash_up get index hash in
      let (us, root) = path_updates get rounds ((index - 1) / 2) above in
      (record { value = above; id = (index - 1) / 2 } ∷ us, root)

  -- The writes of a leaf and its path, and the metadata after them.
  unfoldable pub finish_insert :
      TreeMetadata → Bool → List Node × ℕ → MutableStore → Result Failure ℕ × MutableStore
  finish_insert m true (us, root) s = (
    ok root,
    flush_cache (record (set_nodes true us s) {
      metadata = some (record m { sub_tree_count = m.sub_tree_count + 1; root = root });
    }),
  )
  finish_insert m false (us, root) s = (ok root, set_nodes false us s)

  -- The writes of a node and of all above it, and the root.
  unfoldable pub leaf_updates : (ℕ → ℕ) → ℕ → ℕ → ℕ → List Node × ℕ
  unfolding path_updates
  leaf_updates get rounds index leaf =
      let (us, root) = path_updates get rounds index leaf in
      (record { value = leaf; id = index } ∷ us, root)

  unfoldable pub insert_leaf : ℕ → Bool → MutableStore → Result Failure ℕ × MutableStore
  unfolding finish_insert leaf_updates
  insert_leaf leaf update_tree s = elim s.metadata [
    | none ↦ (err (error tree_not_found), s)
    | some m ↦
        let height = m.tree_height + m.sub_tree_height in
        let index = 2 ^ height - 1 + m.sub_tree_count * 2 ^ m.sub_tree_height in
        finish_insert m update_tree (leaf_updates (λ i. get_node i s) height index leaf) s
  ]

  -- One sub tree, whose root stands at `index`: the writes in their order, and the root of the tree.
  unfoldable pub place_sub_tree : (ℕ → ℕ) → ℕ → ℕ → ℕ → List ℕ → Option (List Node × ℕ)
  unfolding path_updates sub_tree_updates
  place_sub_tree get rounds rows index sub_tree = elim (get_elem? sub_tree 0) [
    | none ↦ none
    | some sub_tree_root ↦
        let (us, root) = path_updates get rounds index sub_tree_root in
        elim (sub_tree_updates rows index 0 1 sub_tree) [
          | none ↦ none
          | some vs ↦ some (record { value = sub_tree_root; id = index } ∷ (us ++ vs), root)
        ]
  ]

  -- The batches, with the count of sub trees and the last root; a panic leaves what was written.
  unfoldable pub append_batches :
      TreeMetadata
      → Bool
      → List (List ℕ)
      → ℕ
      → ℕ
      → MutableStore
      → Result Failure (ℕ × ℕ) × MutableStore
  unfolding place_sub_tree
  append_batches m update_tree [] count root s = (ok (count, root), s)
  append_batches m update_tree (batch ∷ batches) count root s =
      elim (make_complete_tree m.sub_tree_height hasher batch) [
        | none ↦ (err panic, s)
        | some sub_tree ↦
            elim (place_sub_tree (λ i. get_node i s) m.tree_height m.sub_tree_height
              (2 ^ m.tree_height - 1 + count) sub_tree) [
                | none ↦ (err panic, s)
                | some (us, root') ↦
                    append_batches m update_tree batches (count + 1) root'
                      (set_nodes update_tree us s)
              ]
      ]

  -- The metadata after the batches.
  unfoldable pub finish_append :
      TreeMetadata
      → Bool
      → Result Failure (ℕ × ℕ) × MutableStore
      → Result Failure (ℕ × ℕ) × MutableStore
  finish_append m update_tree (err e, s) = (err e, s)
  finish_append m true (ok (count, root), s) = (
    ok (root, count * 2 ^ m.sub_tree_height),
    flush_cache (record s { metadata = some (record m { sub_tree_count = count; root = root }) }),
  )
  finish_append m false (ok (count, root), s) =
      (ok (root, m.sub_tree_count * 2 ^ m.sub_tree_height), s)

  unfoldable pub append_sub_trees :
      List ℕ → Bool → MutableStore → Result Failure (ℕ × ℕ) × MutableStore
  unfolding append_batches finish_append
  append_sub_trees leaves update_tree s = elim s.metadata [
    | none ↦ (err (error tree_not_found), s)
    | some m ↦
        if not (length leaves % 2 ^ m.sub_tree_height == 0)
        then (err (error incorrect_batch_size), s)
        else if length leaves == 0
        then (ok (m.root, m.sub_tree_count * 2 ^ m.sub_tree_height), s)
        else if ltb (2 ^ m.tree_height) m.sub_tree_count
        then (err (error tree_is_full), s)
        else finish_append m update_tree (
            append_batches m update_tree (chunks (2 ^ m.sub_tree_height) leaves) m.sub_tree_count 0
              s)
  ]
