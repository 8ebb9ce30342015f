-- ===== src/Trees/Helpers.antt =====
-- The functions of `mod helper_functions` in `lib/src/merkle_trees/trees.rs`. A `none` is a panic, or
-- a loop that does not end. The tree hash of the Poseidon library is the argument `hasher`.
use nightfall_4_ce.Common.{
  ℕ, zero, suc, ◌+◌, ◌-◌, ◌*◌, ◌/◌, ◌%◌, ◌^◌, List, [], ◌∷◌, ◌++◌, Option, none, some, ltb, ◌==◌,
  if◌then◌else◌, length, get_or, set, replicate,
}
use nightfall_4_ce.Trees.Types.{
  Directions, hash_with_this_node_on_left, hash_with_this_node_on_right,
}

-- The body of the loop of `make_complete_tree` at the node `index`.
unfoldable pub hash_pair : (ℕ → ℕ → ℕ) → ℕ → List ℕ → List ℕ
hash_pair hasher index nodes =
    set nodes (index / 2 - 1) (hasher (get_or nodes (index - 1) 0) (get_or nodes index 0))

-- The rounds of that loop, from the right; two nodes are hashed in each.
unfoldable pub hash_nodes : (ℕ → ℕ → ℕ) → ℕ → ℕ → List ℕ → List ℕ
hash_nodes hasher zero index nodes = nodes
hash_nodes hasher (suc rounds) index nodes =
    hash_nodes hasher rounds (index - 2) (hash_pair hasher index nodes)

-- The array of zeros with the leaves copied to its end. More leaves than fit is a panic.
unfoldable pub make_complete_tree : ℕ → (ℕ → ℕ → ℕ) → List ℕ → Option (List ℕ)
make_complete_tree height hasher leaves =
    let n_nodes = 2 ^ (height + 1) - 1 in
    let n_leaves = 2 ^ height in
    let first_leaf_index = n_nodes - n_leaves in
    let nodes =
      replicate first_leaf_index 0 ++ (leaves ++ replicate (n_leaves - length leaves) 0) in
    if ltb n_leaves (length leaves)
    then none
    else some (hash_nodes hasher (n_nodes / 2) (n_nodes - 1) nodes)

unfoldable pub direction_loop : ℕ → ℕ → ℕ → List Directions
direction_loop zero i index = []
direction_loop (suc rounds) i index =
    (if index / 2 ^ i % 2 == 0 then hash_with_this_node_on_right else hash_with_this_node_on_left)
    ∷ direction_loop rounds (i + 1) index

unfoldable pub index_to_directions : ℕ → ℕ → List Directions
unfolding direction_loop
index_to_directions index height = direction_loop height 0 index

-- The `while` loop of `get_frontier_index`; a difference below zero is a panic.
unfoldable pub frontier_loop : ℕ → ℕ → ℕ → ℕ → ℕ → Option ℕ
frontier_loop zero leaf_index exp1 pow1 pow2 = none
frontier_loop (suc fuel) leaf_index exp1 pow1 pow2 =
    let rest = frontier_loop fuel leaf_index (exp1 + 1) pow2 (pow2 * 2) in
    if ltb (leaf_index + 1) pow1
    then none
    else if (leaf_index + 1 - pow1) % pow2 == 0
    then some exp1
    else rest

unfoldable pub get_frontier_index : ℕ → Option ℕ
unfolding frontier_loop
get_frontier_index leaf_index =
    if leaf_index % 2 == 1 then frontier_loop leaf_index leaf_index 1 2 4 else some 0
