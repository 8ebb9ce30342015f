-- ===== src/Trees/AppendOnly/Append.antt =====
-- `append_sub_trees` of the append-only tree: it computes the root over all the leaves so far.
use nightfall_4_ce.Common.{
  ℕ, zero, suc, ◌+◌, ◌*◌, ◌^◌, ◌≤◌, ◌<◌, ◌≡◌, refl, sym, ◌∙◌, ap, arith, List, [], ◌∷◌, ◌++◌, some,
  length, get_elem?, set, take, drop, length-append, length-set, length-take, length-drop,
  take-append-drop, get_or-append_left, get_or-append_right, get_or_outside, ok, lt→ltb,
}
use mathlib.Core.List.{append-nil, append_assoc}
use native.Mathlib.Nat.{one-le-pow}
use nightfall_4_ce.Trees.Types.{TreeMetadata}
use nightfall_4_ce.Trees.Helpers.{index_to_directions, get_frontier_index}
use nightfall_4_ce.Trees.Root.{root_of, leaf_at, root_of_ext, root_of-root_of, root_of_zeros}
use nightfall_4_ce.Trees.Complete.{make_complete_tree-IsCompleteTree}
use nightfall_4_ce.Trees.AppendOnly.Frontier.{get_frontier_index_lem, TrailingOnes-lt}
use nightfall_4_ce.Trees.AppendOnly.Walk.{
  walk, hash_path-walk, IsFrontier, Appends, last-walk, set-IsFrontier,
}
use nightfall_4_ce.Trees.AppendOnly.Defs.{
  Progress, hash_path, last_or, update_frontier, append_root, sub_tree_root_of, append_batches,
  chunk_list,
}
use nightfall_4_ce.Trees.AppendOnly.Blocks.{
  block_inside, block_beyond, pow_above_one, first_node-eq, no_blocks, none_of, nil_of_length,
}

abbrev pub meta_of : ℕ → ℕ → ℕ → ℕ → TreeMetadata
meta_of height sub count root = record {
  tree_height = height;
  sub_tree_height = sub;
  sub_tree_count = count;
  root = root;
}

-- The root of the sub tree `i` over a list of leaves.
abbrev pub block_root : (ℕ → ℕ → ℕ) → ℕ → List ℕ → ℕ → ℕ
block_root hasher sub all i = root_of hasher sub (λ j. leaf_at all (i * 2 ^ sub + j))

module _ (hasher : ℕ → ℕ → ℕ) (height sub : ℕ) where
  -- The loop's variables describe the tree over the leaves `all`.
  pub record Describes (p : Progress) (all : List ℕ) : Type 0 where
    pub size : length p.frontier ≡ height
    pub counted : length all ≡ p.sub_tree_count * 2 ^ sub
    pub held : IsFrontier hasher p.frontier p.sub_tree_count (block_root hasher sub all)

  abbrev pub IsRootOver : ℕ → List ℕ → Type 0
  IsRootOver root all = root ≡ root_of hasher (height + sub) (leaf_at all)

  pub append_root_path :
      (p : Progress) (x : ℕ)
      → length p.frontier ≡ height
      → hash_path hasher p.frontier (index_to_directions p.sub_tree_count height) 0 x
        ≡ some (walk hasher p.frontier p.sub_tree_count x)
  unfolding index_to_directions
  append_root_path p x size = rw (← size) (
      hash_path-walk hasher p.frontier p.frontier 0 p.sub_tree_count p.sub_tree_count x
        (λ j. ap (get_elem? p.frontier) (omega arith)) (omega arith))

  append_root_lem :
      (p : Progress) (x : ℕ)
      → length p.frontier ≡ height
      → (k q : ℕ) → get_frontier_index p.sub_tree_count ≡ some k
      → k < length p.frontier
      → get_elem? (walk hasher p.frontier p.sub_tree_count x) k ≡ some q
      → append_root hasher height x p
        ≡ ok (record {
          frontier = set p.frontier k q;
          sub_tree_count = p.sub_tree_count + 1;
          root = last_or 0 (walk hasher p.frontier p.sub_tree_count x);
        })
  unfolding append_root
  append_root_lem p x size k q found lt got =
      rw (append_root_path p x size, found, update_frontier, got, lt→ltb k (length p.frontier) lt)

  module _ (zero_hash : hasher 0 0 ≡ 0) where
    block-Appends :
        (all batch : List ℕ) (n : ℕ)
        → length all ≡ n * 2 ^ sub
        → length batch ≡ 2 ^ sub
        → Appends hasher
            (block_root hasher sub all)
            (block_root hasher sub (all ++ batch))
            n
            (root_of hasher sub (leaf_at batch))
    block-Appends all batch n counted full = record {
      before = λ i lt. root_of_ext hasher sub _ _ (λ j lt'.
          get_or-append_left all batch (i * 2 ^ sub + j) 0
            (rw counted (block_inside i n j (2 ^ sub) lt lt')));
      placed =
          root_of_ext hasher sub _ _
            (λ j lt. ap (leaf_at (all ++ batch)) (omega arith) ∙ get_or-append_right all batch j 0);
      after = λ i lt. root_of_zeros hasher sub _ zero_hash (λ j.
          get_or_outside (all ++ batch) (i * 2 ^ sub + j) 0
            (omega (arith, length-append all batch, block_beyond i n j (2 ^ sub) lt)));
    }

    -- One batch of a full sub tree.
    append_root-Describes :
        (p : Progress) (all batch : List ℕ)
        → Describes p all
        → length batch ≡ 2 ^ sub
        → p.sub_tree_count + 1 < 2 ^ height
        → (p' : Progress) × (append_root hasher height (root_of hasher sub (leaf_at batch)) p
            ≡ ok p')
          × Describes p' (all ++ batch)
          × IsRootOver p'.root (all ++ batch)
          × (p'.sub_tree_count ≡ p.sub_tree_count + 1)
    append_root-Describes p all batch d full room =
        let c : ℕ = p.sub_tree_count in
        let x : ℕ = root_of hasher sub (leaf_at batch) in
        let appended = block-Appends all batch c d.counted full in
        let (k, found, ones) = get_frontier_index_lem c in
        let fits = TrailingOnes-lt height c ones room in
        let (q, got, kept) =
          set-IsFrontier hasher zero_hash p.frontier c x _ _ d.held appended ones
            (omega (arith, d.size)) in
        (
          record {
            frontier = set p.frontier k q;
            sub_tree_count = c + 1;
            root = last_or 0 (walk hasher p.frontier c x);
          },
          append_root_lem p x d.size k q found (omega (arith, d.size)) got,
          record {
            size = length-set p.frontier k q ∙ d.size;
            counted = omega (arith, length-append all batch, d.counted);
            held = kept;
          },
          last-walk hasher zero_hash p.frontier c x 0 _ _ d.held appended (rw d.size (omega arith))
              ∙ ap (λ (t : ℕ). root_of hasher t (block_root hasher sub (all ++ batch))) d.size
              ∙ root_of-root_of hasher height sub (leaf_at (all ++ batch)),
          refl,
        )

    pub sub_tree_root_of-eq :
        (batch : List ℕ)
        → length batch ≡ 2 ^ sub
        → sub_tree_root_of hasher sub batch ≡ ok (root_of hasher sub (leaf_at batch))
    unfolding sub_tree_root_of
    sub_tree_root_of-eq batch full =
        let (nodes, made, tree) =
          make_complete_tree-IsCompleteTree hasher sub batch (omega (arith, full)) in
        rw made (first_node-eq nodes (omega (arith, tree.size, pow_above_one sub)) ∙ ap ok tree.top)

    -- What the loop over the batches ends with.
    pub record Ends (p : Progress) (m : ℕ) (leaves all : List ℕ) (p' : Progress) : Type 0 where
      pub describes : Describes p' (all ++ leaves)
      pub idle : m ≡ 0 → p' ≡ p
      pub rooted : 0 < m → IsRootOver p'.root (all ++ leaves)

    Ends-none : (p : Progress) (m : ℕ) (all : List ℕ) → m ≡ 0 → Describes p all → Ends p m [] all p
    Ends-none p m all e d = record {
      describes = rw (append-nil all) d;
      idle = λ _. refl;
      rooted = λ lt. absurd (omega arith);
    }

    Ends-more :
        (p p₁ p' : Progress) (m : ℕ) (batch rest leaves all : List ℕ)
        → batch ++ rest ≡ leaves
        → (m ≡ 0 → rest ≡ [])
        → IsRootOver p₁.root (all ++ batch)
        → Ends p₁ m rest (all ++ batch) p'
        → Ends p (suc m) leaves all p'
    Ends-more p p₁ p' m batch rest leaves all e last first ends = record {
      describes = rw whole at ends.describes;
      idle = λ z. absurd (omega arith);
      rooted = λ _. last_root m refl;
    }
      where
        whole : (all ++ batch) ++ rest ≡ all ++ leaves
        whole = append_assoc all batch rest ∙ ap (λ (xs : List ℕ). all ++ xs) e

        last_root : (k : ℕ) → m ≡ k → IsRootOver p'.root (all ++ leaves)
        last_root zero z =
            let one : batch ≡ leaves =
              sym (append-nil batch) ∙ ap (λ (xs : List ℕ). batch ++ xs) (sym (last z)) ∙ e in
            ap (λ (q : Progress). q.root) (ends.idle z)
            ∙ first
            ∙ ap (λ (xs : List ℕ). root_of hasher (height + sub) (leaf_at (all ++ xs))) one
        last_root (suc k) z = rw whole at (ends.rooted (omega arith))

    pub append_batches-Ends :
        (c r : ℕ) (fuel m : ℕ) (leaves all : List ℕ) (p : Progress)
        → Describes p all
        → length leaves ≡ m * 2 ^ sub
        → m ≤ fuel
        → p.sub_tree_count + m < 2 ^ height
        → (p' : Progress) × (append_batches hasher
              (meta_of height sub c r)
              (chunk_list fuel (2 ^ sub) leaves)
              p
            ≡ ok p')
          × Ends p m leaves all p'
    unfolding append_batches chunk_list
    append_batches-Ends c r zero m [] all p d full enough room =
        (p, refl, Ends-none p m all (omega arith) d)
    append_batches-Ends c r (suc fuel) m [] all p d full enough room =
        (p, refl, Ends-none p m all (no_blocks m (2 ^ sub) (one-le-pow sub 2 (omega arith)) full) d)
    append_batches-Ends c r zero m (x ∷ xs) all p d full enough room =
        absurd (omega (arith, ap (λ (t : ℕ). t * 2 ^ sub) (none_of m enough)))
    append_batches-Ends c r (suc fuel) zero (x ∷ xs) all p d full enough room = absurd (omega arith)
    append_batches-Ends c r (suc fuel) (suc m) (x ∷ xs) all p d full enough room =
        let leaves : List ℕ = x ∷ xs in
        let batch : List ℕ = take (2 ^ sub) leaves in
        let size : length batch ≡ 2 ^ sub = omega (arith, length-take (2 ^ sub) leaves, full) in
        let (p₁, stepped, described, rooted, counted) =
          append_root-Describes p all batch d size (omega arith) in
        let (p', done, ends) =
          append_batches-Ends c r fuel m (drop (2 ^ sub) leaves) (all ++ batch) p₁ described
            (omega (arith, length-drop (2 ^ sub) leaves, full)) (omega arith) (omega arith) in
        (
          p',
          rw (sub_tree_root_of-eq batch size, stepped) done,
          Ends-more p p₁ p' m batch (drop (2 ^ sub) leaves) leaves all
              (take-append-drop (2 ^ sub) leaves)
              (λ z.
                nil_of_length (drop (2 ^ sub) leaves) (
                  omega (arith, length-drop (2 ^ sub) leaves, full, ap (λ (t : ℕ). t * 2 ^ sub) z)))
              rooted ends,
        )
