-- ===== src/Trees/Mutable/Append.antt =====
-- `append_sub_trees` of the mutable tree, with and without `update_tree`: it computes the root over all
-- the leaves so far, and leaves the nodes a full heap over them.
use nightfall_4_ce.Common.{
  ℕ, zero, suc, ◌+◌, ◌-◌, ◌*◌, ◌^◌, ◌≤◌, ◌<◌, ◌≡◌, refl, sym, ap, ◌∙◌, arith, Bool, true, List, [],
  ◌∷◌, ◌++◌, some, length, get_or, take, drop, ok, length-append, length-take, length-drop,
  take-append-drop, get_or-append_left, get_or-append_right, get_or_outside,
}
use mathlib.Core.Path.{ap₂}
use mathlib.Core.List.{append-nil, append_assoc}
use native.Mathlib.Nat.{one-le-pow}
use native.Mathlib.Decide.{dec_lt}
use nightfall_4_ce.Trees.Types.{TreeMetadata}
use nightfall_4_ce.Trees.Root.{leaf_at}
use nightfall_4_ce.Trees.Complete.{make_complete_tree-IsCompleteTree}
use nightfall_4_ce.Trees.AppendOnly.Blocks.{no_blocks, none_of}
use nightfall_4_ce.Trees.AppendOnly.Defs.{chunk_list}
use nightfall_4_ce.Trees.Mutable.Store.{Node, MutableStore, get_node, set_nodes}
use nightfall_4_ce.Trees.Mutable.Defs.{append_batches}
use nightfall_4_ce.Trees.Mutable.Overlay.{
  overlay, get_node-set_nodes, cache-set_nodes, metadata-set_nodes,
}
use nightfall_4_ce.Trees.Mutable.Place.{
  with_block, with_block-before, with_block-inside, with_block-after, IsFull,
  place_sub_tree-IsWritten,
}

-- The leaves of a list and a batch after it.
pub with_block-append :
    (k c : ℕ) (all batch : List ℕ)
    → length all ≡ c * 2 ^ k
    → length batch ≡ 2 ^ k
    → (i : ℕ) → with_block (leaf_at all) k c batch i ≡ leaf_at (all ++ batch) i
with_block-append k c all batch counted full i = elim (dec_lt i (c * 2 ^ k)) [
  | yes before ↦
      with_block-before (leaf_at all) k c batch i before
      ∙ sym (get_or-append_left all batch i 0 (omega arith))
  | no above ↦ elim (dec_lt i (c * 2 ^ k + 2 ^ k)) [
    | yes inside ↦
        with_block-inside (leaf_at all) k c batch i (omega arith) inside
        ∙ sym (get_or-append_right all batch (i - c * 2 ^ k) 0)
        ∙ ap (λ (t : ℕ). get_or (all ++ batch) t 0) (omega arith)
    | no after ↦
        with_block-after (leaf_at all) k c batch i (omega arith)
        ∙ get_or_outside all i 0 (omega arith)
        ∙ sym (get_or_outside (all ++ batch) i 0 (omega (arith, length-append all batch)))
  ]
]

module _ (hasher : ℕ → ℕ → ℕ) where
  pub IsFull-ext :
      (height : ℕ) (f f' g g' : ℕ → ℕ)
      → ((i : ℕ) → f i ≡ f' i)
      → ((i : ℕ) → g' i ≡ g i)
      → IsFull hasher height f g
      → IsFull hasher height f' g'
  IsFull-ext height f f' g g' e e' full = record {
    heap = λ j lt. e' j ∙ full.heap j lt ∙ sym (ap₂ hasher (e' (2 * j + 1)) (e' (2 * j + 2)));
    leaves = λ i lt. e' (2 ^ height - 1 + i) ∙ full.leaves i lt ∙ e i;
  }

  -- The store in the loop over the batches, after the leaves `all`.
  pub record IsLoaded (update_tree : Bool) (m : TreeMetadata) (all : List ℕ) (s : MutableStore)
      : Type 0 where
    pub full : IsFull hasher (m.tree_height + m.sub_tree_height) (leaf_at all) (λ i. get_node i s)
    pub cacheless : update_tree ≡ true → s.cache ≡ []
    pub documented : s.metadata ≡ some m

  pub record IsStep (update_tree : Bool) (m : TreeMetadata) (all batch : List ℕ) (count root : ℕ)
      (s : MutableStore) : Type 0 where
    pub after : MutableStore
    pub top : ℕ
    pub continues :
        (rest : List (List ℕ))
        → append_batches hasher m update_tree (batch ∷ rest) count root s
          ≡ append_batches hasher m update_tree rest (count + 1) top after
    pub loaded : IsLoaded update_tree m (all ++ batch) after
    pub top_node : top ≡ get_node 0 after

  IsLoaded-set_nodes :
      (update_tree : Bool) (m : TreeMetadata) (all : List ℕ) (us : List Node) (f : ℕ → ℕ)
      (s : MutableStore)
      → s.metadata ≡ some m
      → (update_tree ≡ true → s.cache ≡ [])
      → ((i : ℕ) → f i ≡ leaf_at all i)
      → IsFull hasher (m.tree_height + m.sub_tree_height) f (overlay us (λ i. get_node i s))
      → IsLoaded update_tree m all (set_nodes update_tree us s)
  IsLoaded-set_nodes update_tree m all us f s e h same full = record {
    full =
        IsFull-ext (m.tree_height + m.sub_tree_height) f (leaf_at all)
          (overlay us (λ i. get_node i s)) (λ i. get_node i (set_nodes update_tree us s)) same
          (get_node-set_nodes update_tree us s h) full;
    cacheless = λ e'. rw e' (cache-set_nodes us s ∙ h e');
    documented = metadata-set_nodes update_tree us s ∙ e;
  }

  append_batches-IsStep :
      (update_tree : Bool) (m : TreeMetadata) (all batch : List ℕ) (count root : ℕ)
      (s : MutableStore)
      → IsLoaded update_tree m all s
      → length all ≡ count * 2 ^ m.sub_tree_height
      → length batch ≡ 2 ^ m.sub_tree_height
      → count < 2 ^ m.tree_height
      → IsStep update_tree m all batch count root s
  unfolding append_batches
  append_batches-IsStep update_tree m all batch count root s d counted full room =
      let (tree, made, built) =
        make_complete_tree-IsCompleteTree hasher m.sub_tree_height batch (omega (arith, full)) in
      let w =
        place_sub_tree-IsWritten hasher m.tree_height m.sub_tree_height count batch tree
          (leaf_at all) (λ i. get_node i s) room built d.full in
      record {
        after = set_nodes update_tree w.writes s;
        top = w.root;
        continues = λ rest. rw (made, append_batches, w.returned, append_batches) refl;
        loaded =
            IsLoaded-set_nodes update_tree m (all ++ batch) w.writes _ s d.documented d.cacheless
              (with_block-append m.sub_tree_height count all batch counted full) w.full;
        top_node = sym w.top ∙ sym (get_node-set_nodes update_tree w.writes s d.cacheless 0);
      }

  -- What the loop over the batches of the leaves ends with.
  pub record IsAppended (update_tree : Bool) (m : TreeMetadata) (count n root : ℕ)
      (leaves all : List ℕ) (batches : List (List ℕ)) (s : MutableStore) : Type 0 where
    pub after : MutableStore
    pub top : ℕ
    pub returned :
        append_batches hasher m update_tree batches count root s ≡ (ok (count + n, top), after)
    pub loaded : IsLoaded update_tree m (all ++ leaves) after
    pub top_node : top ≡ get_node 0 after

  nothing-IsAppended :
      (update_tree : Bool) (m : TreeMetadata) (count n root : ℕ) (all : List ℕ) (s : MutableStore)
      → n ≡ 0
      → IsLoaded update_tree m all s
      → root ≡ get_node 0 s
      → IsAppended update_tree m count n root [] all [] s
  unfolding append_batches
  nothing-IsAppended update_tree m count n root all s e d top = record {
    after = s;
    top = root;
    returned = ap (λ (t : ℕ). (ok (t, root), s)) (omega arith);
    loaded = rw (append-nil all) d;
    top_node = top;
  }

  more-IsAppended :
      (update_tree : Bool) (m : TreeMetadata) (count n root : ℕ) (batch rest leaves all : List ℕ)
      (batches : List (List ℕ)) (s : MutableStore)
      → batch ++ rest ≡ leaves
      → (w : IsStep update_tree m all batch count root s)
      → IsAppended update_tree m (count + 1) n w.top rest (all ++ batch) batches w.after
      → IsAppended update_tree m count (suc n) root leaves all (batch ∷ batches) s
  more-IsAppended update_tree m count n root batch rest leaves all batches s e w r = record {
    after = r.after;
    top = r.top;
    returned =
        w.continues batches ∙ r.returned ∙ ap (λ (t : ℕ). (ok (t, r.top), r.after)) (omega arith);
    loaded = rw (append_assoc all batch rest ∙ ap (λ (xs : List ℕ). all ++ xs) e) at r.loaded;
    top_node = r.top_node;
  }

  pub append_batches-IsAppended :
      (update_tree : Bool) (m : TreeMetadata) (fuel n count root : ℕ) (leaves all : List ℕ)
      (s : MutableStore)
      → IsLoaded update_tree m all s
      → (n ≡ 0 → root ≡ get_node 0 s)
      → length all ≡ count * 2 ^ m.sub_tree_height
      → length leaves ≡ n * 2 ^ m.sub_tree_height
      → n ≤ fuel
      → count + n ≤ 2 ^ m.tree_height
      → IsAppended update_tree m count n root leaves all
          (chunk_list fuel (2 ^ m.sub_tree_height) leaves)
          s
  unfolding chunk_list
  append_batches-IsAppended update_tree m zero n count root [] all s d top counted full enough
        room =
      nothing-IsAppended update_tree m count n root all s (omega arith) d (top (omega arith))
  append_batches-IsAppended update_tree m (suc fuel) n count root [] all s d top counted full enough
        room =
      let none_left : n ≡ 0 =
        no_blocks n (2 ^ m.sub_tree_height) (one-le-pow m.sub_tree_height 2 (omega arith)) full in
      nothing-IsAppended update_tree m count n root all s none_left d (top none_left)
  append_batches-IsAppended update_tree m zero n count root (x ∷ xs) all s d top counted full enough
        room =
      absurd (omega (arith, ap (λ (t : ℕ). t * 2 ^ m.sub_tree_height) (none_of n enough)))
  append_batches-IsAppended update_tree m (suc fuel) zero count root (x ∷ xs) all s d top counted
        full enough room =
      absurd (omega arith)
  append_batches-IsAppended update_tree m (suc fuel) (suc n) count root (x ∷ xs) all s d top counted
        full enough room =
      let width : ℕ = 2 ^ m.sub_tree_height in
      let batch : List ℕ = take width (x ∷ xs) in
      let size : length batch ≡ width = omega (arith, length-take width (x ∷ xs), full) in
      let w : IsStep update_tree m all batch count root s =
        append_batches-IsStep update_tree m all batch count root s d counted size (omega arith) in
      more-IsAppended update_tree m count n root batch (drop width (x ∷ xs)) (x ∷ xs) all _ s
        (take-append-drop width (x ∷ xs)) w
        (append_batches-IsAppended update_tree m fuel n (count + 1) w.top (drop width (x ∷ xs))
          (all ++ batch) w.after w.loaded (λ _. w.top_node) (omega (arith, length-append all batch))
          (omega (arith, length-drop width (x ∷ xs), full)) (omega arith) (omega arith))
