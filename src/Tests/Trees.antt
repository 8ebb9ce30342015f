-- ===== src/Tests/Trees.antt =====
-- The trees of `lib/src/merkle_trees` at concrete inputs: trees of height two over sub trees of height
-- one, and the collection with the zero leaf.
use nightfall_4_ce.Common.{ℕ, ◌+◌, ◌*◌, ◌≡◌, refl, arith, true, false, List, [], ◌∷◌, some, ok, err}
use nightfall_4_ce.Trees.Types.{panic}
use nightfall_4_ce.Trees.Helpers.{make_complete_tree}
use nightfall_4_ce.Trees.Root.{root_of, leaf_at}
use nightfall_4_ce.Trees.Complete.{IsCompleteTree, make_complete_tree-IsCompleteTree}
use nightfall_4_ce.Trees.AppendOnly.Defs.{Progress, append_sub_trees}
use nightfall_4_ce.Trees.AppendOnly.Append.{Describes}
use nightfall_4_ce.Trees.AppendOnly.Laws.{store_of, append_sub_trees_lem, append_sub_trees_last}
use nightfall_4_ce.Trees.Indexed.Defs.{Leaves, default_leaf, store_leaf, get_leaf, has_id}
use nightfall_4_ce.Trees.Indexed.Chain.{is_last, IsChain}
use nightfall_4_ce.Trees.Indexed.Laws.{store_leaf-Stores, Stores}

abbrev hasher : ℕ → ℕ → ℕ
hasher a b = a + 2 * b

abbrev start : Progress
start = record { frontier = 0 ∷ 0 ∷ []; sub_tree_count = 0; root = 0 }

start-Describes : Describes hasher 2 1 start []
start-Describes = record {
  size = refl;
  counted = refl;
  held = (λ odd. absurd (omega arith), (λ odd. absurd (omega arith), tt));
}

append_sub_trees_lem_example :
    (p' : Progress) × (append_sub_trees hasher (1 ∷ 2 ∷ 3 ∷ 4 ∷ []) true (store_of 2 1 start)
      ≡ (ok (root_of hasher 3 (leaf_at (1 ∷ 2 ∷ 3 ∷ 4 ∷ []))), store_of 2 1 p'))
    × (append_sub_trees hasher (1 ∷ 2 ∷ 3 ∷ 4 ∷ []) false (store_of 2 1 start)
        ≡ (ok (root_of hasher 3 (leaf_at (1 ∷ 2 ∷ 3 ∷ 4 ∷ []))), store_of 2 1 start))
    × Describes hasher 2 1 p' (1 ∷ 2 ∷ 3 ∷ 4 ∷ [])
append_sub_trees_lem_example =
    append_sub_trees_lem hasher 2 1 refl start [] (1 ∷ 2 ∷ 3 ∷ 4 ∷ []) 2 start-Describes
      (omega arith) refl (omega arith)

append_sub_trees_last_example :
    append_sub_trees hasher (7 ∷ 8 ∷ []) true (store_of 2 1 (record start { sub_tree_count = 3 }))
    ≡ (err panic, store_of 2 1 (record start { sub_tree_count = 3 }))
append_sub_trees_last_example =
    append_sub_trees_last hasher 2 1 refl (7 ∷ 8 ∷ []) true (record start { sub_tree_count = 3 }) 0
      refl refl refl

make_complete_tree-IsCompleteTree_example :
    (nodes : List ℕ) × (make_complete_tree 2 hasher (1 ∷ 2 ∷ 3 ∷ []) ≡ some nodes)
    × IsCompleteTree hasher 2 (1 ∷ 2 ∷ 3 ∷ []) nodes
make_complete_tree-IsCompleteTree_example =
    make_complete_tree-IsCompleteTree hasher 2 (1 ∷ 2 ∷ 3 ∷ []) (omega arith)

zero_leaves-IsChain : IsChain (default_leaf ∷ [])
unfolding get_leaf
zero_leaves-IsChain = record {
  zero_leaf = (default_leaf, refl);
  linked = λ w l e. is_last (ground arith) (ground arith) (λ k m e'. ground arith);
}

store_leaf-Stores_example :
    (ls' : Leaves) × (store_leaf 5 (some 1) (default_leaf ∷ []) ≡ ok ls')
    × Stores 5 1 (default_leaf ∷ []) ls'
unfolding has_id get_leaf
store_leaf-Stores_example = store_leaf-Stores 5 1 (default_leaf ∷ []) zero_leaves-IsChain refl refl
