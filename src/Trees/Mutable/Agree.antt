-- ===== src/Trees/Mutable/Agree.antt =====
-- The mutable tree beside the append-only tree, and a dry run, `update_tree` being false.
use nightfall_4_ce.Common.{
  ℕ, ◌+◌, ◌-◌, ◌*◌, ◌^◌, ◌≤◌, ◌<◌, ◌≡◌, refl, sym, ap, ◌∙◌, arith, true, false, inl, inr, List, [],
  ◌∷◌, ◌++◌, length, ok, Option-cases,
}
use native.Mathlib.Nat.{one-le-pow}
use nightfall_4_ce.Trees.Types.{TreeMetadata}
use nightfall_4_ce.Trees.Root.{leaf_at}
use nightfall_4_ce.Trees.Helpers.{make_complete_tree}
use nightfall_4_ce.Trees.AppendOnly
use nightfall_4_ce.Trees.AppendOnly.Append.{Describes}
use nightfall_4_ce.Trees.AppendOnly.Laws.{mul_mono, store_of, append_sub_trees_lem}
use nightfall_4_ce.Trees.Mutable.Store.{Node, MutableStore, get_node, set_node, set_nodes}
use nightfall_4_ce.Trees.Mutable.Defs.{
  append_batches, append_sub_trees, finish_append, place_sub_tree,
}
use nightfall_4_ce.Trees.Mutable.Place.{IsFull-root_of}
use nightfall_4_ce.Trees.Mutable.Laws.{
  Represents, root_over, append_sub_trees-run, append_sub_trees-Represents,
}

nodes-set_nodes : (us : List Node) (s : MutableStore) → (set_nodes false us s).nodes ≡ s.nodes
unfolding set_nodes set_node
nodes-set_nodes [] s = refl
nodes-set_nodes (u ∷ us) s = nodes-set_nodes us (set_node false u s)

fits : (c n w h : ℕ) → 1 ≤ w → c + n < h → c * w + n * w < h * w
fits c n w h some_leaf lt =
    let room : (c + n + 1) * w ≤ h * w = mul_mono (c + n + 1) h w (omega arith) in grind arith

module _ (hasher : ℕ → ℕ → ℕ) where
  nodes-append_batches :
      (m : TreeMetadata) (batches : List (List ℕ)) (count root : ℕ) (s : MutableStore)
      → (append_batches hasher m false batches count root s).1.nodes ≡ s.nodes
  unfolding append_batches
  nodes-append_batches m [] count root s = refl
  nodes-append_batches m (batch ∷ batches) count root s =
      elim (Option-cases (make_complete_tree m.sub_tree_height hasher batch)) [
        | inl failed ↦ rw (append_batches, failed) refl
        | inr (tree, made) ↦
            elim (Option-cases (
              place_sub_tree hasher (λ i. get_node i s) m.tree_height m.sub_tree_height
                (2 ^ m.tree_height - 1 + count) tree)) [
                  | inl failed ↦ rw (append_batches, made, append_batches, failed) refl
                  | inr ((us, root'), placed) ↦
                      rw (append_batches, made, append_batches, placed)
                        (nodes-append_batches m batches (count + 1) root' (set_nodes false us s)
                          ∙ nodes-set_nodes us s)
                ]
      ]

  -- Where a store represents the tree over the leaves `all`, with nothing in the cache, that fill
  -- the counted sub trees, whole sub trees, at least one, for which there is room are appended
  -- without `update_tree`: the answer is the Merkle root over all leaves, old and new, with the
  -- number of the old ones, and neither nodes nor metadata change.
  pub append_sub_trees_dry_run :
      (m : TreeMetadata) (all leaves : List ℕ) (n : ℕ) (s : MutableStore)
      → Represents hasher m (leaf_at all) s
      → length all ≡ m.sub_tree_count * 2 ^ m.sub_tree_height
      → length leaves ≡ n * 2 ^ m.sub_tree_height
      → 0 < n
      → m.sub_tree_count + n ≤ 2 ^ m.tree_height
      → (s' : MutableStore) × (append_sub_trees hasher leaves false s
          ≡ (ok (root_over hasher m (leaf_at (all ++ leaves)), length all), s'))
        × (s'.nodes ≡ s.nodes)
        × (s'.metadata ≡ s.metadata)
  unfolding finish_append
  append_sub_trees_dry_run m all leaves n s d counted sized some_batch room =
      let (w, run) =
        append_sub_trees-run hasher false m all leaves n s
          (record { full = d.full; cacheless = λ e. d.cacheless; documented = d.documented })
          counted sized some_batch room in
      let root : w.top ≡ root_over hasher m (leaf_at (all ++ leaves)) =
        w.top_node ∙ IsFull-root_of hasher (m.tree_height + m.sub_tree_height) _ _ w.loaded.full in
      (
        w.after,
        run ∙ rw (root, counted) refl,
        sym (ap (λ (r : _). r.1.nodes) w.returned) ∙ nodes-append_batches m _ m.sub_tree_count 0 s,
        w.loaded.documented ∙ sym d.documented,
      )

  -- Where the hash of two zeros is zero and both the append-only and the mutable tree, of the same
  -- heights and counts, are over the leaves `all`, whole sub trees, at least one, that leave the
  -- last place free are appended to both with `update_tree`: both answer the same root, and are
  -- over the old and the new leaves after it.
  pub trees_agree :
      hasher 0 0 ≡ 0
      → (p : AppendOnly.Defs.Progress) (m : TreeMetadata) (all leaves : List ℕ) (n : ℕ)
        (s : MutableStore)
      → Describes hasher m.tree_height m.sub_tree_height p all
      → Represents hasher m (leaf_at all) s
      → length leaves ≡ n * 2 ^ m.sub_tree_height
      → 0 < n
      → m.sub_tree_count + n < 2 ^ m.tree_height
      → p.sub_tree_count ≡ m.sub_tree_count
      → (root : ℕ) × (p' : AppendOnly.Defs.Progress) × (m' : TreeMetadata) × (s' : MutableStore)
        × (AppendOnly.Defs.append_sub_trees hasher leaves true
              (store_of m.tree_height m.sub_tree_height p)
            ≡ (ok root, store_of m.tree_height m.sub_tree_height p'))
        × (append_sub_trees hasher leaves true s ≡ (ok (root, length (all ++ leaves)), s'))
        × Describes hasher m.tree_height m.sub_tree_height p' (all ++ leaves)
        × Represents hasher m' (leaf_at (all ++ leaves)) s'
  trees_agree z p m all leaves n s d r sized some_batch room same =
      let counted : length all ≡ m.sub_tree_count * 2 ^ m.sub_tree_height =
        d.counted ∙ rw same refl in
      let (p', appended, _, d') =
        append_sub_trees_lem hasher m.tree_height m.sub_tree_height z p all leaves n d some_batch
          sized
          (rw (counted, sized)
            (fits m.sub_tree_count n (2 ^ m.sub_tree_height) (2 ^ m.tree_height)
              (one-le-pow m.sub_tree_height 2 (omega arith)) room)) in
      let (m', s', appended', r', _) =
        append_sub_trees-Represents hasher m all leaves n s r counted sized some_batch
          (omega arith) in
      (_, p', m', s', appended, appended', d', r')
