-- ===== src/Trees/Mutable/Laws.antt =====
-- What a mutable tree promises: between the operations the nodes are a full heap over the leaves, with
-- an empty cache, and the root in the metadata is the Merkle root of the leaves.
use nightfall_4_ce.Common.{
  ℕ, ◌+◌, ◌*◌, ◌%◌, ◌^◌, ◌≤◌, ◌<◌, ◌≡◌, refl, sym, ap, ◌∙◌, arith, Bool, true, List, [], ◌++◌,
  Option, some, length, length-append, ok, err, ltb-false, ==_false,
}
use native.Mathlib.Nat.{one-le-pow, mul-mod_left}
use nightfall_4_ce.Trees.Types.{TreeMetadata, error, database_error}
use nightfall_4_ce.Trees.Root.{root_of, root_of_zeros, leaf_at}
use nightfall_4_ce.Trees.AppendOnly.Defs.{chunks}
use nightfall_4_ce.Trees.Mutable.Store.{
  MutableStore, get_node, stored_node, find_id, flush_cache, new_mutable_tree, reset_mutable_tree,
}
use nightfall_4_ce.Trees.Mutable.Defs.{append_batches, append_sub_trees, finish_append}
use nightfall_4_ce.Trees.Mutable.Overlay.{get_node-flush_cache}
use nightfall_4_ce.Trees.Mutable.Place.{IsFull, IsFull-root_of}
use nightfall_4_ce.Trees.Mutable.Append.{
  IsLoaded, IsAppended, IsFull-ext, append_batches-IsAppended,
}

module _ (hasher : ℕ → ℕ → ℕ) where
  pub record Represents (m : TreeMetadata) (f : ℕ → ℕ) (s : MutableStore) : Type 0 where
    pub documented : s.metadata ≡ some m
    pub cacheless : s.cache ≡ []
    pub full : IsFull hasher (m.tree_height + m.sub_tree_height) f (λ i. get_node i s)
    pub rooted : m.root ≡ root_of hasher (m.tree_height + m.sub_tree_height) f

  abbrev pub root_over : TreeMetadata → (ℕ → ℕ) → ℕ
  root_over m f = root_of hasher (m.tree_height + m.sub_tree_height) f

  -- In a database without documents of the tree, a new tree is made, of zeros, if two zeros hash to zero.
  pub new_mutable_tree-Represents :
      hasher 0 0 ≡ 0
      → (height sub_height : ℕ) (s : MutableStore)
      → (m : TreeMetadata) × (s' : MutableStore) × (new_mutable_tree height sub_height
            (reset_mutable_tree s)
          ≡ (ok tt, s'))
        × Represents m (λ i. 0) s'
        × (m.sub_tree_count ≡ 0)
        × ((h k : ℕ) → new_mutable_tree h k s' ≡ (err (error database_error), s'))
  unfolding new_mutable_tree get_node stored_node find_id reset_mutable_tree
  new_mutable_tree-Represents z height sub_height s =
      let m : TreeMetadata = record {
        tree_height = height;
        sub_tree_height = sub_height;
        sub_tree_count = 0;
        root = 0;
      } in
      (
        m,
        record { metadata = some m; nodes = []; cache = [] },
        refl,
        record {
          documented = refl;
          cacheless = refl;
          full = record { heap = λ j lt. sym z; leaves = λ i lt. refl };
          rooted = sym (root_of_zeros hasher (height + sub_height) (λ i. 0) z (λ i. refl));
        },
        refl,
        λ h k. refl,
      )

  Represents-IsLoaded :
      (update_tree : Bool) (m : TreeMetadata) (all : List ℕ) (s : MutableStore)
      → Represents m (leaf_at all) s
      → IsLoaded hasher update_tree m all s
  Represents-IsLoaded update_tree m all s d = record {
    full = d.full;
    cacheless = λ e. d.cacheless;
    documented = d.documented;
  }

  get_node-flushed :
      (o : Option TreeMetadata) (s : MutableStore)
      → s.cache ≡ []
      → (i : ℕ) → get_node i (flush_cache (record s { metadata = o })) ≡ get_node i s
  unfolding get_node stored_node
  get_node-flushed o s e i = get_node-flush_cache i (record s { metadata = o }) (rw e tt)

  -- The end of an operation with `update_tree`: the metadata are written, and the empty cache flushed.
  pub flushed-Represents :
      (m : TreeMetadata) (f : ℕ → ℕ) (s : MutableStore)
      → s.cache ≡ []
      → IsFull hasher (m.tree_height + m.sub_tree_height) f (λ i. get_node i s)
      → m.root ≡ get_node 0 s
      → Represents m f (flush_cache (record s { metadata = some m }))
  unfolding flush_cache
  flushed-Represents m f s e full top = record {
    documented = refl;
    cacheless = refl;
    full =
        IsFull-ext hasher (m.tree_height + m.sub_tree_height) f f (λ i. get_node i s) _ (λ i. refl)
          (get_node-flushed (some m) s e) full;
    rooted =
        top ∙ IsFull-root_of hasher (m.tree_height + m.sub_tree_height) f (λ i. get_node i s) full;
  }

  append_sub_trees_valid :
      (update_tree : Bool) (m : TreeMetadata) (leaves : List ℕ) (s : MutableStore)
      → s.metadata ≡ some m
      → length leaves % 2 ^ m.sub_tree_height ≡ 0
      → 0 < length leaves
      → m.sub_tree_count ≤ 2 ^ m.tree_height
      → append_sub_trees hasher leaves update_tree s
        ≡ finish_append hasher m update_tree (
            append_batches hasher m update_tree
              (chunks (2 ^ m.sub_tree_height) leaves)
              m.sub_tree_count
              0
              s)
  unfolding append_sub_trees
  append_sub_trees_valid update_tree m leaves s e whole more room =
      rw
        (
          e,
          whole,
          ==_false (length leaves) 0 (λ z. omega arith),
          ltb-false (2 ^ m.tree_height) m.sub_tree_count room,
        )
        refl

  -- The loop over the batches, as `append_sub_trees` runs it.
  pub append_sub_trees-run :
      (update_tree : Bool) (m : TreeMetadata) (all leaves : List ℕ) (n : ℕ) (s : MutableStore)
      → IsLoaded hasher update_tree m all s
      → length all ≡ m.sub_tree_count * 2 ^ m.sub_tree_height
      → length leaves ≡ n * 2 ^ m.sub_tree_height
      → 0 < n
      → m.sub_tree_count + n ≤ 2 ^ m.tree_height
      → (w : IsAppended hasher update_tree m m.sub_tree_count n 0 leaves all
          (chunks (2 ^ m.sub_tree_height) leaves)
          s)
        × (append_sub_trees hasher leaves update_tree s
            ≡ finish_append hasher m update_tree (ok (m.sub_tree_count + n, w.top), w.after))
  unfolding chunks
  append_sub_trees-run update_tree m all leaves n s d counted sized some_batch room =
      let positive : 1 ≤ 2 ^ m.sub_tree_height = one-le-pow m.sub_tree_height 2 (omega arith) in
      let whole : length leaves % 2 ^ m.sub_tree_height ≡ 0 =
        rw sized (mul-mod_left n (2 ^ m.sub_tree_height)) in
      let w =
        append_batches-IsAppended hasher update_tree m (length leaves) n m.sub_tree_count 0 leaves
          all s d (λ z. absurd (omega arith)) counted sized (grind arith) room in
      (
        w,
        append_sub_trees_valid update_tree m leaves s d.documented whole (grind arith) (omega arith)
            ∙ ap (finish_append hasher m update_tree) w.returned,
      )

  -- Where a store represents the tree over the leaves `all`, with nothing in the cache, and they
  -- fill the counted sub trees, whole sub trees, at least one, for which there is room are appended
  -- with `update_tree`: the answer is the Merkle root over all leaves, old and new, and their
  -- number, the store then represents all of them with nothing in the cache, and the metadata
  -- differ in the count and the root only.
  pub append_sub_trees-Represents :
      (m : TreeMetadata) (all leaves : List ℕ) (n : ℕ) (s : MutableStore)
      → Represents m (leaf_at all) s
      → length all ≡ m.sub_tree_count * 2 ^ m.sub_tree_height
      → length leaves ≡ n * 2 ^ m.sub_tree_height
      → 0 < n
      → m.sub_tree_count + n ≤ 2 ^ m.tree_height
      → (m' : TreeMetadata) × (s' : MutableStore) × (append_sub_trees hasher leaves true s
          ≡ (ok (root_over m (leaf_at (all ++ leaves)), length (all ++ leaves)), s'))
        × Represents m' (leaf_at (all ++ leaves)) s'
        × (m' ≡ record m {
          sub_tree_count = m.sub_tree_count + n;
          root = root_over m (leaf_at (all ++ leaves));
        })
  unfolding finish_append
  append_sub_trees-Represents m all leaves n s d counted sized some_batch room =
      let (w, run) =
        append_sub_trees-run true m all leaves n s (Represents-IsLoaded true m all s d) counted
          sized some_batch room in
      let m' : TreeMetadata = record m {
        sub_tree_count = m.sub_tree_count + n;
        root = root_over m (leaf_at (all ++ leaves));
      } in
      let root : w.top ≡ root_over m (leaf_at (all ++ leaves)) =
        w.top_node ∙ IsFull-root_of hasher (m.tree_height + m.sub_tree_height) _ _ w.loaded.full in
      let count : (m.sub_tree_count + n) * 2 ^ m.sub_tree_height ≡ length (all ++ leaves) =
        grind (arith, length-append all leaves) in
      (
        m',
        flush_cache (record w.after { metadata = some m' }),
        run ∙ rw (root, count) refl,
        flushed-Represents m' (leaf_at (all ++ leaves)) w.after (w.loaded.cacheless refl)
            w.loaded.full (sym root ∙ w.top_node),
        refl,
      )
