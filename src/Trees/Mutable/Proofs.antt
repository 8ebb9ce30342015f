-- ===== src/Trees/Mutable/Proofs.antt =====
-- Membership proofs of the mutable tree: a path of siblings folds to the root, for the leaf that is
-- there and for a sub tree that takes a block's place.
use nightfall_4_ce.Common.{
  ℕ, zero, suc, ◌+◌, ◌-◌, ◌*◌, ◌/◌, ◌%◌, ◌^◌, ◌≤◌, ◌<◌, ◌≡◌, ◌≢◌, refl, sym, ap, ◌∙◌, arith, List,
  [], ◌∷◌, ◌==◌, Bool-cases, inl, inr, ==→≡,
}
use mathlib.Core.Path.{ap₂}
use native.Mathlib.Nat.{pow-suc, one-le-pow, add-suc, add-zero}
use native.Mathlib.Decide.{dec_lt, ℕ_discrete}
use nightfall_4_ce.Trees.Types.{
  Directions, hash_with_this_node_on_left, hash_with_this_node_on_right,
}
use nightfall_4_ce.Trees.Root.{level_up, root_of, leaf_at, root_of_ext, root_of-root_of}
use nightfall_4_ce.Trees.AppendOnly.Blocks.{block_inside, block_beyond}
use nightfall_4_ce.Trees.Mutable.Defs.{PathElement, sibling_path_loop, hash_up, path_updates}
use nightfall_4_ce.Trees.Mutable.Overlay.{overlay}
use nightfall_4_ce.Trees.Mutable.Heap.{
  IsHeapUpTo, IsPlaced, heap-root_of, path_writes, path_writes-IsPlaced,
}
use nightfall_4_ce.Trees.Mutable.Place.{
  with_block, with_block-before, with_block-inside, with_block-after, IsFull, level_narrow,
}

module _ (hasher : ℕ → ℕ → ℕ) where
  -- The root that a path of siblings makes of a node, as a verifier computes it.
  abbrev pub hash_with : Directions → ℕ → ℕ → ℕ
  hash_with hash_with_this_node_on_left sibling hash = hasher sibling hash
  hash_with hash_with_this_node_on_right sibling hash = hasher hash sibling

  unfoldable pub fold_path : ℕ → List PathElement → ℕ
  fold_path hash [] = hash
  fold_path hash (e ∷ path) = fold_path (hash_with e.direction e.value hash) path

  -- The loop of the insertions ends with what the path of siblings makes of their node.
  pub path_updates-fold_path :
      (get : ℕ → ℕ) (rounds index v : ℕ)
      → (path_updates hasher get rounds index v).1
        ≡ fold_path v (sibling_path_loop get rounds index)
  unfolding path_updates fold_path sibling_path_loop hash_up
  path_updates-fold_path get zero index v = refl
  path_updates-fold_path get (suc rounds) index v = elim (Bool-cases (index % 2 == 0)) [
    | inl even ↦
        rw even (path_updates-fold_path get rounds ((index - 1) / 2) (hasher (get (index - 1)) v))
    | inr odd ↦
        rw odd (path_updates-fold_path get rounds ((index - 1) / 2) (hasher v (get (index + 1))))
  ]

  -- On a heap the path of siblings makes the top of every node.
  pub fold_path-heap :
      (g : ℕ → ℕ) (rounds index : ℕ)
      → IsHeapUpTo hasher (2 ^ rounds - 1) g
      → 2 ^ rounds ≤ index + 1
      → index + 1 < 2 * 2 ^ rounds
      → fold_path (g index) (sibling_path_loop g rounds index) ≡ g 0
  unfolding fold_path sibling_path_loop
  fold_path-heap g zero index heap low high = ap g (omega arith)
  fold_path-heap g (suc rounds) index heap low high =
      let wide : 2 ^ suc rounds ≡ 2 ^ rounds * 2 = pow-suc 2 rounds in
      let some_leaf : 1 ≤ 2 ^ rounds = one-le-pow rounds 2 (omega arith) in
      let parent : ℕ = (index - 1) / 2 in
      let up =
        fold_path-heap g rounds parent (λ j lt. heap j (omega arith)) (omega arith) (omega arith) in
      let top = heap parent (omega arith) in
      elim (Bool-cases (index % 2 == 0)) [
        | inl even ↦
            let two : index % 2 ≡ 0 = ==→≡ _ _ even in
            rw even (
              ap (λ (t : ℕ). fold_path t (sibling_path_loop g rounds parent))
                (ap₂ hasher (ap g (omega arith)) (ap g (omega arith)) ∙ sym top)
              ∙ up)
        | inr odd ↦
            let one : index % 2 ≡ 1 = ground arith in
            rw odd (
              ap (λ (t : ℕ). fold_path t (sibling_path_loop g rounds parent))
                (ap₂ hasher (ap g (omega arith)) (ap g (omega arith)) ∙ sym top)
              ∙ up)
      ]

  -- One level up.
  IsFull-level :
      (height : ℕ) (f g : ℕ → ℕ)
      → IsFull hasher (suc height) f g
      → IsFull hasher height (level_up hasher f) g
  IsFull-level height f g full =
      let wide : 2 ^ suc height ≡ 2 ^ height * 2 = pow-suc 2 height in
      let some_leaf : 1 ≤ 2 ^ height = one-le-pow height 2 (omega arith) in
      record {
        heap = λ j lt. full.heap j (omega arith);
        leaves = λ i lt.
            full.heap (2 ^ height - 1 + i) (omega arith)
            ∙ ap₂ hasher (ap g (omega arith) ∙ full.leaves (2 * i) (omega arith))
                (ap g (omega arith) ∙ full.leaves (2 * i + 1) (omega arith));
      }

  -- The nodes of a level above the leaves are the roots of their blocks.
  pub heap-block :
      (rounds k : ℕ) (g f : ℕ → ℕ)
      → IsFull hasher (rounds + k) f g
      → (c : ℕ) → c < 2 ^ rounds
      → g (2 ^ rounds - 1 + c) ≡ root_of hasher k (λ j. f (c * 2 ^ k + j))
  unfolding root_of
  heap-block rounds zero g f full c lt =
      let full' : IsFull hasher rounds f g = rw (add-zero rounds) at full in
      full'.leaves c lt ∙ ap f (omega arith)
  heap-block rounds (suc k) g f full c lt =
      heap-block rounds k g (level_up hasher f)
        (IsFull-level (rounds + k) f g (rw (add-suc rounds k) at full)) c lt
      ∙ root_of_ext hasher k _ _ (λ j lt'.
        ap₂ hasher (ap f (omega (arith, ap (λ (t : ℕ). c * t) (pow-suc 2 k))))
          (ap f (omega (arith, ap (λ (t : ℕ). c * t) (pow-suc 2 k)))))

  -- A sub tree with the leaves of a list in the place of a block: its root folds to the root over the
  -- leaves with that block replaced.
  pub fold_path-with_block :
      (rounds k c : ℕ) (leaves : List ℕ) (f g : ℕ → ℕ)
      → IsFull hasher (rounds + k) f g
      → c < 2 ^ rounds
      → fold_path
          (root_of hasher k (leaf_at leaves))
          (sibling_path_loop g rounds (2 ^ rounds - 1 + c))
        ≡ root_of hasher (rounds + k) (with_block f k c leaves)
  fold_path-with_block rounds k c leaves f g full lt =
      sym (path_updates-fold_path g rounds index v)
      ∙ sym placed.top
      ∙ heap-root_of hasher rounds (overlay (path_writes hasher g rounds index v) g)
          (λ i. root_of hasher k (λ j. with_block f k c leaves (i * 2 ^ k + j))) placed.heap nodes
      ∙ root_of-root_of hasher rounds k (with_block f k c leaves)
    where
      index : ℕ
      index = 2 ^ rounds - 1 + c

      v : ℕ
      v = root_of hasher k (leaf_at leaves)

      placed :
          IsPlaced hasher
            (2 ^ rounds - 1)
            index
            v
            (path_updates hasher g rounds index v).1
            g
            (overlay (path_writes hasher g rounds index v) g)
      placed =
          path_writes-IsPlaced hasher g g rounds index v (omega arith)
            (omega (arith, one-le-pow rounds 2 (omega arith))) (λ j _ _. refl)
            (λ j lt. full.heap j (omega (arith, level_narrow rounds k)))

      outside :
          (i j : ℕ)
          → i ≢ c
          → j < 2 ^ k
          → f (i * 2 ^ k + j) ≡ with_block f k c leaves (i * 2 ^ k + j)
      outside i j ne lt' = elim (dec_lt i c) [
        | yes before ↦
            sym (
              with_block-before f k c leaves (i * 2 ^ k + j)
                (block_inside i c j (2 ^ k) before lt'))
        | no above ↦ sym (
            with_block-after f k c leaves (i * 2 ^ k + j)
              (block_beyond i c j (2 ^ k) (omega arith)))
      ]

      nodes :
          (i : ℕ)
          → i < 2 ^ rounds
          → overlay (path_writes hasher g rounds index v) g (2 ^ rounds - 1 + i)
            ≡ root_of hasher k (λ j. with_block f k c leaves (i * 2 ^ k + j))
      nodes i lt' = elim (ℕ_discrete i c) [
        | yes same ↦ rw same (
            placed.here
            ∙ root_of_ext hasher k _ _ (λ j lt''. sym (
                with_block-inside f k c leaves (c * 2 ^ k + j) (omega arith) (omega arith)
                ∙ ap (leaf_at leaves) (omega arith))))
        | no other ↦
            placed.others (2 ^ rounds - 1 + i) (omega arith) (λ e. other (omega arith))
            ∙ heap-block rounds k g f full i lt'
            ∙ root_of_ext hasher k _ _ (λ j lt''. outside i j other lt'')
      ]
