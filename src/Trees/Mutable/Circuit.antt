-- ===== src/Trees/Mutable/Circuit.antt =====
-- What the proof of `insert_for_circuit` is worth to a verifier.
use nightfall_4_ce.Common.{
  ℕ, Bool, zero, suc, ◌+◌, ◌-◌, ◌*◌, ◌/◌, ◌^◌, ◌≤◌, ◌<◌, ◌≡◌, refl, sym, ap, ◌∙◌, arith, true, List,
  ◌++◌, Option, some, ok, ◌==◌, ==_self, get_or_outside, drop, length, length-append,
}
use mathlib.Core.Path.{subst}
use native.Mathlib.Nat.{pow-suc, one-le-pow, add-suc, add-zero}
use nightfall_4_ce.Trees.Types.{TreeMetadata}
use nightfall_4_ce.Trees.Root.{root_of, leaf_at, root_of_ext, root_of_zeros}
use nightfall_4_ce.Trees.AppendOnly.Blocks.{block_inside}
use nightfall_4_ce.Trees.Mutable.Store.{Node, MutableStore, get_node}
use nightfall_4_ce.Trees.Mutable.Defs.{
  PathElement, append_sub_trees, CircuitInsertionInfo, sibling_path_loop,
}
use nightfall_4_ce.Trees.Mutable.Update.{circuit_info, insert_for_circuit}
use nightfall_4_ce.Trees.Mutable.Place.{IsFull-root_of, level_narrow, pow_add}
use nightfall_4_ce.Trees.Mutable.Append.{with_block-append}
use nightfall_4_ce.Trees.Mutable.Laws.{Represents, root_over, append_sub_trees-Represents}
use nightfall_4_ce.Trees.Mutable.Proofs.{
  fold_path, fold_path-heap, fold_path-with_block, heap-block,
}
use nightfall_4_ce.Trees.Mutable.Membership.{proof_found}

-- The path from the bottom of a block, without the siblings inside it, is the path of the block.
drop-sibling_path_loop :
    (get : ℕ → ℕ) (rounds k c : ℕ)
    → drop k (sibling_path_loop get (rounds + k) (2 ^ (rounds + k) - 1 + c * 2 ^ k))
      ≡ sibling_path_loop get rounds (2 ^ rounds - 1 + c)
unfolding sibling_path_loop
drop-sibling_path_loop get rounds zero c =
    rw (add-zero rounds) (ap (sibling_path_loop get rounds) (omega arith))
drop-sibling_path_loop get rounds (suc k) c =
    let some_node : 1 ≤ 2 ^ (rounds + k) = one-le-pow (rounds + k) 2 (omega arith) in
    let up : (2 ^ suc (rounds + k) - 1 + c * 2 ^ suc k - 1) / 2 ≡ 2 ^ (rounds + k) - 1 + c * 2 ^ k =
      omega (arith, pow-suc 2 (rounds + k), ap (λ (t : ℕ). c * t) (pow-suc 2 k)) in
    rw (add-suc rounds k) (
      ap (λ (t : ℕ). drop k (sibling_path_loop get (rounds + k) t)) up
      ∙ drop-sibling_path_loop get rounds k c)

module _ (hasher : ℕ → ℕ → ℕ) where
  -- The siblings of the place of the next sub tree.
  abbrev next_path : TreeMetadata → MutableStore → List PathElement
  next_path m s =
      sibling_path_loop (λ j. get_node j s) m.tree_height (2 ^ m.tree_height - 1 + m.sub_tree_count)

  next_path-empty :
      hasher 0 0 ≡ 0
      → (m : TreeMetadata) (all : List ℕ) (s : MutableStore) → Represents hasher m (leaf_at all) s
      → length all ≡ m.sub_tree_count * 2 ^ m.sub_tree_height
      → m.sub_tree_count < 2 ^ m.tree_height
      → fold_path hasher 0 (next_path m s) ≡ m.root
  next_path-empty z m all s d counted room =
      let zero_node : get_node (2 ^ m.tree_height - 1 + m.sub_tree_count) s ≡ 0 =
        heap-block hasher m.tree_height m.sub_tree_height (λ j. get_node j s) (leaf_at all) d.full
          m.sub_tree_count room
        ∙ root_of_zeros hasher m.sub_tree_height _ z (λ j. get_or_outside all _ 0 (omega arith)) in
      ap (λ (t : ℕ). fold_path hasher t (next_path m s)) (sym zero_node)
      ∙ fold_path-heap hasher (λ j. get_node j s) m.tree_height
          (2 ^ m.tree_height - 1 + m.sub_tree_count)
          (λ j lt. d.full.heap j (omega (arith, level_narrow m.tree_height m.sub_tree_height)))
          (omega arith) (omega (arith, one-le-pow m.tree_height 2 (omega arith)))
      ∙ IsFull-root_of hasher (m.tree_height + m.sub_tree_height) (leaf_at all) (λ j. get_node j s)
          d.full
      ∙ sym d.rooted

  next_path-filled :
      (m : TreeMetadata) (all batch : List ℕ) (s : MutableStore)
      → Represents hasher m (leaf_at all) s
      → length all ≡ m.sub_tree_count * 2 ^ m.sub_tree_height
      → length batch ≡ 2 ^ m.sub_tree_height
      → m.sub_tree_count < 2 ^ m.tree_height
      → fold_path hasher (root_of hasher m.sub_tree_height (leaf_at batch)) (next_path m s)
        ≡ root_over hasher m (leaf_at (all ++ batch))
  next_path-filled m all batch s d counted sized room =
      fold_path-with_block hasher m.tree_height m.sub_tree_height m.sub_tree_count batch
        (leaf_at all) (λ j. get_node j s) d.full room
      ∙ root_of_ext hasher (m.tree_height + m.sub_tree_height) _ _
          (λ i _. with_block-append m.sub_tree_height m.sub_tree_count all batch counted sized i)

  -- What `insert_for_circuit` returns.
  abbrev info_of : TreeMetadata → List ℕ → MutableStore → ℕ → CircuitInsertionInfo
  info_of m commitments s new_root = record {
    old_root = m.root;
    new_root = new_root;
    proof = record { node_value = 0; sibling_path = next_path m s; leaf_index = m.sub_tree_count };
    leaf_count = m.sub_tree_count * 2 ^ m.sub_tree_height + length commitments;
    leaves = commitments;
  }

  insert_for_circuit_at :
      (debug_on : Bool) (m : TreeMetadata) (commitments : List ℕ) (root count : ℕ)
      (nodes cache : List Node) (s' : MutableStore)
      → length commitments ≡ 2 ^ m.sub_tree_height
      → m.sub_tree_count < 2 ^ m.tree_height
      → append_sub_trees hasher commitments true
          (record { metadata = some m; nodes = nodes; cache = cache })
        ≡ (ok (root, count), s')
      → insert_for_circuit hasher debug_on commitments
          (record { metadata = some m; nodes = nodes; cache = cache })
        ≡ (
          ok (
              info_of m commitments
                (record { metadata = some m; nodes = nodes; cache = cache })
                root),
          s',
        )
  unfolding insert_for_circuit circuit_info
  insert_for_circuit_at debug_on m commitments root count nodes cache s' sized room appended =
      let inside : m.sub_tree_count * 2 ^ m.sub_tree_height
          < 2 ^ (m.tree_height + m.sub_tree_height) =
        omega (
          arith,
          pow_add m.tree_height m.sub_tree_height,
          block_inside m.sub_tree_count (2 ^ m.tree_height) 0 (2 ^ m.sub_tree_height) room
              (one-le-pow m.sub_tree_height 2 (omega arith)),
        ) in
      let same : (length commitments == 2 ^ m.sub_tree_height) ≡ true =
        rw sized (==_self (2 ^ m.sub_tree_height)) in
      rw
        (
          same,
          proof_found debug_on m (m.sub_tree_count * 2 ^ m.sub_tree_height)
              (record { metadata = some m; nodes = nodes; cache = cache }) refl inside,
          appended,
          drop-sibling_path_loop
              (λ j. get_node j (record { metadata = some m; nodes = nodes; cache = cache }))
              m.tree_height m.sub_tree_height m.sub_tree_count,
        )
        refl

  insert_for_circuit_lem :
      (debug_on : Bool) (m : TreeMetadata) (commitments : List ℕ) (root count : ℕ)
      (s s' : MutableStore)
      → s.metadata ≡ some m
      → length commitments ≡ 2 ^ m.sub_tree_height
      → m.sub_tree_count < 2 ^ m.tree_height
      → append_sub_trees hasher commitments true s ≡ (ok (root, count), s')
      → insert_for_circuit hasher debug_on commitments s ≡ (ok (info_of m commitments s root), s')
  insert_for_circuit_lem debug_on m commitments root count s s' e sized room =
      subst
        (λ (o : Option TreeMetadata).
          append_sub_trees hasher commitments true
              (record { metadata = o; nodes = s.nodes; cache = s.cache })
            ≡ (ok (root, count), s')
          → insert_for_circuit hasher debug_on commitments
              (record { metadata = o; nodes = s.nodes; cache = s.cache })
            ≡ (
              ok (
                  info_of m commitments (record { metadata = o; nodes = s.nodes; cache = s.cache })
                    root),
              s',
            ))
        (sym e)
        (insert_for_circuit_at debug_on m commitments root count s.nodes s.cache s' sized room)

  -- Where the hash of two zeros is zero, the store represents the tree over the leaves `all` that
  -- fill the counted sub trees, and there is room for another: the insertion of one sub tree
  -- succeeds. Its proof folds zero to the old root, which shows that the place was empty, and folds
  -- the root of the sub tree to the new root; the leaves are the given ones and the leaf count is
  -- that of all leaves, which the store then represents, and the metadata differ in the count and
  -- the root only.
  pub insert_for_circuit-fold_path :
      hasher 0 0 ≡ 0
      → (debug_on : Bool) (m : TreeMetadata) (all commitments : List ℕ) (s : MutableStore)
      → Represents hasher m (leaf_at all) s
      → length all ≡ m.sub_tree_count * 2 ^ m.sub_tree_height
      → length commitments ≡ 2 ^ m.sub_tree_height
      → m.sub_tree_count < 2 ^ m.tree_height
      → (info : CircuitInsertionInfo) × (m' : TreeMetadata) × (s' : MutableStore)
        × (insert_for_circuit hasher debug_on commitments s ≡ (ok info, s'))
        × (info.old_root ≡ m.root)
        × (fold_path hasher 0 info.proof.sibling_path ≡ info.old_root)
        × (fold_path hasher
              (root_of hasher m.sub_tree_height (leaf_at commitments))
              info.proof.sibling_path
            ≡ info.new_root)
        × (info.leaves ≡ commitments)
        × (info.leaf_count ≡ length (all ++ commitments))
        × (m' ≡ record m { sub_tree_count = m.sub_tree_count + 1; root = info.new_root })
        × Represents hasher m' (leaf_at (all ++ commitments)) s'
  insert_for_circuit-fold_path z debug_on m all commitments s d counted sized room =
      let (m', s', appended, d', written) =
        append_sub_trees-Represents hasher m all commitments 1 s d counted (omega arith)
          (omega arith) (omega arith) in
      (
        info_of m commitments s (root_over hasher m (leaf_at (all ++ commitments))),
        m',
        s',
        insert_for_circuit_lem debug_on m commitments _ _ s s' d.documented sized room appended,
        refl,
        next_path-empty z m all s d counted room,
        next_path-filled m all commitments s d counted sized room,
        refl,
        omega (arith, length-append all commitments),
        written,
        d',
      )
