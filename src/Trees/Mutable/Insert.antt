-- ===== src/Trees/Mutable/Insert.antt =====
-- `update_sub_tree` and `insert_leaf` on a tree that represents some leaves: they change one block, or
-- one leaf.
use nightfall_4_ce.Common.{
  ℕ, ◌+◌, ◌-◌, ◌*◌, ◌^◌, ◌≤◌, ◌<◌, ◌≡◌, ◌≢◌, ◌⊎◌, inl, inr, refl, sym, ap, ◌∙◌, arith, Bool, true,
  List, [], ◌∷◌, Option, some, ok, err, ==_false, lt→ltb, length, Bool-cases,
}
use native.Mathlib.Nat.{one-le-pow}
use native.Mathlib.Decide.{ℕ_discrete, dec_lt}
use nightfall_4_ce.Trees.Types.{TreeMetadata, error, incorrect_batch_size}
use nightfall_4_ce.Trees.Root.{leaf_at}
use nightfall_4_ce.Trees.AppendOnly.Blocks.{block_inside}
use nightfall_4_ce.Trees.Mutable.Store.{Node, MutableStore, get_node, set_nodes, flush_cache}
use nightfall_4_ce.Trees.Mutable.Defs.{
  is_power_of_two, path_updates, insert_leaf, finish_insert, leaf_updates,
}
use nightfall_4_ce.Trees.Mutable.Update.{finish_update, place_leaves, update_sub_tree}
use nightfall_4_ce.Trees.Mutable.Overlay.{overlay, get_node-set_nodes, cache-set_nodes}
use nightfall_4_ce.Trees.Mutable.Heap.{IsPlaced, path_writes, path_writes-IsPlaced}
use nightfall_4_ce.Trees.Mutable.Place.{
  with_block, with_block-before, with_block-inside, with_block-after, IsFull, IsFull-root_of,
  pow_add,
}
use nightfall_4_ce.Trees.Mutable.Append.{IsFull-ext}
use nightfall_4_ce.Trees.Mutable.Laws.{Represents, root_over, flushed-Represents}
use nightfall_4_ce.Trees.Mutable.Change.{
  is_power_of_two_inv, is_power_of_two-pow, le_pow, place_leaves_lem,
}

module _ (hasher : ℕ → ℕ → ℕ) where
  -- Writes that make a full heap, their top in the metadata, and the cache flushed.
  written-Represents :
      (m : TreeMetadata) (us : List Node) (f g : ℕ → ℕ) (s : MutableStore)
      → s.cache ≡ []
      → IsFull hasher (m.tree_height + m.sub_tree_height) f (overlay us (λ i. get_node i s))
      → overlay us (λ i. get_node i s) 0 ≡ m.root
      → Represents hasher m f (flush_cache (record (set_nodes true us s) { metadata = some m }))
  written-Represents m us f g s e full top =
      flushed-Represents hasher m f (set_nodes true us s) (cache-set_nodes us s ∙ e)
        (IsFull-ext hasher (m.tree_height + m.sub_tree_height) f f (overlay us (λ i. get_node i s))
          _ (λ i. refl) (get_node-set_nodes true us s (λ _. e)) full)
        (sym top ∙ sym (get_node-set_nodes true us s (λ _. e) 0))

  update_sub_tree_valid :
      (m : TreeMetadata) (k c : ℕ) (leaves : List ℕ) (update_tree : Bool) (s : MutableStore)
      → s.metadata ≡ some m
      → length leaves ≡ 2 ^ k
      → c < 2 ^ (m.tree_height + m.sub_tree_height)
      → update_sub_tree hasher c leaves update_tree s
        ≡ finish_update m update_tree (place_leaves hasher m c leaves s) s
  unfolding update_sub_tree
  update_sub_tree_valid m k c leaves update_tree s e sized inside =
      let power : is_power_of_two (length leaves) (length leaves) ≡ true =
        rw sized (is_power_of_two-pow k (2 ^ k) (omega (arith, le_pow k))) in
      let some_leaf : 1 ≤ 2 ^ k = one-le-pow k 2 (omega arith) in
      rw
        (
          e,
          power,
          ==_false (length leaves) 0 (λ z. omega arith),
          lt→ltb c (2 ^ (m.tree_height + m.sub_tree_height)) inside,
        )
        refl

  -- Where a store represents the tree over some leaves, a sub tree of the tree's height, or one
  -- leaf, in a place inside the tree is replaced with `update_tree`: the answer is the Merkle root
  -- over the leaves with this block replaced, the store represents these leaves, and in the
  -- metadata only the root differs.
  pub update_sub_tree-Represents :
      (m : TreeMetadata) (k c : ℕ) (leaves : List ℕ) (f : ℕ → ℕ) (s : MutableStore)
      → Represents hasher m f s
      → (k ≡ 0) ⊎ (k ≡ m.sub_tree_height)
      → length leaves ≡ 2 ^ k
      → c * 2 ^ k < 2 ^ (m.tree_height + m.sub_tree_height)
      → (s' : MutableStore) × (update_sub_tree hasher c leaves true s
          ≡ (ok (root_over hasher m (with_block f k c leaves)), s'))
        × Represents hasher
            (record m { root = root_over hasher m (with_block f k c leaves) })
            (with_block f k c leaves)
            s'
  unfolding finish_update flush_cache
  update_sub_tree-Represents m k c leaves f s d shape sized inside =
      let (us, root, placed, full, top) =
        place_leaves_lem hasher m k c leaves f s d.full shape sized inside in
      let some_leaf : 1 ≤ 2 ^ k = one-le-pow k 2 (omega arith) in
      let same : root ≡ root_over hasher m (with_block f k c leaves) =
        sym top ∙ IsFull-root_of hasher (m.tree_height + m.sub_tree_height) _ _ full in
      (
        _,
        update_sub_tree_valid m k c leaves true s d.documented sized (grind arith)
            ∙ ap (λ (o : Option (List Node × ℕ)). finish_update m true o s) placed
            ∙ rw same refl,
        written-Represents (record m { root = root_over hasher m (with_block f k c leaves) }) us
            (with_block f k c leaves) f s d.cacheless full (top ∙ same),
      )

  -- Leaves that are not a power of two in number, none among them, are refused, and nothing is written.
  pub update_sub_tree_wrong_size :
      (m : TreeMetadata) (c : ℕ) (leaves : List ℕ) (update_tree : Bool) (s : MutableStore)
      → s.metadata ≡ some m
      → ((k : ℕ) → length leaves ≢ 2 ^ k)
      → update_sub_tree hasher c leaves update_tree s ≡ (err (error incorrect_batch_size), s)
  unfolding update_sub_tree
  update_sub_tree_wrong_size m c leaves update_tree s e none_fits =
      elim (Bool-cases (is_power_of_two (length leaves) (length leaves))) [
        | inl power ↦
            let (k, sized) = is_power_of_two_inv (length leaves) (length leaves) power in
            absurd (none_fits k sized)
        | inr other ↦ rw (e, other) refl
      ]

  -- The path of a leaf, on a full heap.
  path_writes-IsFull :
      (height c leaf : ℕ) (f g : ℕ → ℕ)
      → c < 2 ^ height
      → IsFull hasher height f g
      → IsFull hasher height
          (with_block f 0 c (leaf ∷ []))
          (overlay (path_writes hasher g height (2 ^ height - 1 + c) leaf) g)
        × (overlay (path_writes hasher g height (2 ^ height - 1 + c) leaf) g 0
            ≡ (path_updates hasher g height (2 ^ height - 1 + c) leaf).1)
  path_writes-IsFull height c leaf f g lt full =
      (record { heap = placed.heap; leaves = leaves }, placed.top)
    where
      some_leaf : 1 ≤ 2 ^ height
      some_leaf = one-le-pow height 2 (omega arith)

      placed :
          IsPlaced hasher
            (2 ^ height - 1)
            (2 ^ height - 1 + c)
            leaf
            (path_updates hasher g height (2 ^ height - 1 + c) leaf).1
            g
            (overlay (path_writes hasher g height (2 ^ height - 1 + c) leaf) g)
      placed =
          path_writes-IsPlaced hasher g g height (2 ^ height - 1 + c) leaf (omega arith)
            (omega arith) (λ j _ _. refl) full.heap

      beside : (i : ℕ) → i ≢ c → with_block f 0 c (leaf ∷ []) i ≡ f i
      beside i ne = elim (dec_lt i c) [
        | yes before ↦ with_block-before f 0 c (leaf ∷ []) i (omega arith)
        | no above ↦ with_block-after f 0 c (leaf ∷ []) i (omega arith)
      ]

      zeroth : c - c * 2 ^ 0 ≡ 0
      zeroth = omega arith

      leaves :
          (i : ℕ)
          → i < 2 ^ height
          → overlay (path_writes hasher g height (2 ^ height - 1 + c) leaf) g (2 ^ height - 1 + i)
            ≡ with_block f 0 c (leaf ∷ []) i
      leaves i lt' = elim (ℕ_discrete i c) [
        | yes same ↦ rw same (
            placed.here
            ∙ sym (
                with_block-inside f 0 c (leaf ∷ []) c (omega arith) (omega arith)
                ∙ ap (leaf_at (leaf ∷ [])) zeroth))
        | no other ↦
            placed.others (2 ^ height - 1 + i) (omega arith) (λ e. other (omega arith))
            ∙ full.leaves i lt'
            ∙ sym (beside i other)
      ]

  insert_leaf_valid :
      (m : TreeMetadata) (leaf : ℕ) (update_tree : Bool) (s : MutableStore)
      → s.metadata ≡ some m
      → insert_leaf hasher leaf update_tree s
        ≡ finish_insert hasher m update_tree
            (leaf_updates hasher
              (λ i. get_node i s)
              (m.tree_height + m.sub_tree_height)
              (2 ^ (m.tree_height + m.sub_tree_height)
                - 1
                + m.sub_tree_count * 2 ^ m.sub_tree_height)
              leaf)
            s
  unfolding insert_leaf
  insert_leaf_valid m leaf update_tree s e = rw e refl

  -- One leaf at the start of the next sub tree.
  pub insert_leaf-Represents :
      (m : TreeMetadata) (leaf : ℕ) (f : ℕ → ℕ) (s : MutableStore)
      → Represents hasher m f s
      → m.sub_tree_count < 2 ^ m.tree_height
      → (f' : ℕ → ℕ) × (s' : MutableStore) × (f'
          ≡ with_block f 0 (m.sub_tree_count * 2 ^ m.sub_tree_height) (leaf ∷ []))
        × (insert_leaf hasher leaf true s ≡ (ok (root_over hasher m f'), s'))
        × Represents hasher
            (record m { sub_tree_count = m.sub_tree_count + 1; root = root_over hasher m f' })
            f'
            s'
  unfolding finish_insert leaf_updates flush_cache path_writes
  insert_leaf-Represents m leaf f s d room =
      let c : ℕ = m.sub_tree_count * 2 ^ m.sub_tree_height in
      let height : ℕ = m.tree_height + m.sub_tree_height in
      let inside : c < 2 ^ height = omega (
        arith,
        pow_add m.tree_height m.sub_tree_height,
        block_inside m.sub_tree_count (2 ^ m.tree_height) 0 (2 ^ m.sub_tree_height) room
            (one-le-pow m.sub_tree_height 2 (omega arith)),
      ) in
      let (full, top) = path_writes-IsFull height c leaf f (λ i. get_node i s) inside d.full in
      let f' : ℕ → ℕ = with_block f 0 c (leaf ∷ []) in
      let same = sym top ∙ IsFull-root_of hasher height f' _ full in
      (
        f',
        _,
        refl,
        insert_leaf_valid m leaf true s d.documented ∙ rw same refl,
        written-Represents
            (record m { sub_tree_count = m.sub_tree_count + 1; root = root_over hasher m f' }) _ f'
            f s d.cacheless full (top ∙ same),
      )
