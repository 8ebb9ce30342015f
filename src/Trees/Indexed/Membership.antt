-- ===== src/Trees/Indexed/Membership.antt =====
-- A proof of non-membership folds to the root of the tree, for a leaf that spans the value.
use nightfall_4_ce.Common.{
  ℕ, ◌+◌, ◌-◌, ◌*◌, ◌^◌, ◌≤◌, ◌<◌, ◌≡◌, ◌≢◌, ◌⊎◌, inl, inr, refl, sym, ap, ◌∙◌, arith, [], ◌∷◌,
  none, some, ok, err, ==_false, ◌==◌, Bool-cases,
}
use native.Mathlib.Nat.{one-le-pow}
use nightfall_4_ce.Trees.Types.{TreeMetadata, error, leaf_exists}
use nightfall_4_ce.Trees.Indexed.Defs.{
  IndexedLeaf, default_leaf, find_one, leaf_query, get_leaf, get_low_leaf, new_indexed_leaves_db,
}
use nightfall_4_ce.Trees.Indexed.Lookup.{lookup, get_low_leaf-IsLowLeaf}
use nightfall_4_ce.Trees.Indexed.Chain.{IsChain}
use nightfall_4_ce.Trees.Indexed.Laws.{get_low_leaf_gap, zero_leaf-IsChain}
use nightfall_4_ce.Trees.Indexed.State.{
  IndexedStore, and_then, ◌>>=◌, ◌>>◌, return_ok, throw_if, or_throw, read_leaves, read_tree,
  write_leaves, with_leaves, on_tree,
}
use nightfall_4_ce.Trees.Indexed.Tree.{
  LeafDbEntry, leaf_hash, low_leaf_proof, new_indexed_tree, get_non_membership_proof,
}
use nightfall_4_ce.Trees.Mutable.Store.{MutableStore, get_node, reset_mutable_tree}
use nightfall_4_ce.Trees.Mutable.Defs.{MembershipProof, sibling_path_loop}
use nightfall_4_ce.Trees.Mutable.Place.{with_block, with_block-inside, IsFull-root_of}
use nightfall_4_ce.Trees.Mutable.Laws.{Represents, new_mutable_tree-Represents}
use nightfall_4_ce.Trees.Mutable.Insert.{insert_leaf-Represents}
use nightfall_4_ce.Trees.Mutable.Proofs.{fold_path, fold_path-heap}

first_leaf : (c k leaf : ℕ) → c ≡ 0 → with_block (λ i. 0) 0 (c * 2 ^ k) (leaf ∷ []) 0 ≡ leaf
first_leaf c k leaf h =
    let e : c * 2 ^ k ≡ 0 = rw h (omega arith) in
    rw e (with_block-inside (λ i. 0) 0 0 (leaf ∷ []) 0 (omega arith) (omega arith))

module _ (hasher : ℕ → ℕ → ℕ) (hash₃ : ℕ → ℕ → ℕ → ℕ) (default_entry : LeafDbEntry) where
  -- The tree and its leaves agree: the leaves are linked, and each one's hash stands in its place.
  pub record IsIndexed (m : TreeMetadata) (f : ℕ → ℕ) (s : IndexedStore) : Type 0 where
    pub tree : Represents hasher m f s.tree
    pub chain : IsChain s.leaves
    pub placed :
        (w : ℕ) (l : IndexedLeaf)
        → lookup w s.leaves ≡ some l
        → (l.id < 2 ^ (m.tree_height + m.sub_tree_height))
          × (f l.id ≡ leaf_hash hasher hash₃ default_entry l)

  non_membership_valid :
      (m : TreeMetadata) (v : ℕ) (low : IndexedLeaf) (s : IndexedStore)
      → v ≢ 0
      → lookup v s.leaves ≡ none
      → get_low_leaf v s.leaves ≡ some low
      → s.tree.metadata ≡ some m
      → get_non_membership_proof hasher hash₃ default_entry v s
        ≡ (ok (low_leaf_proof hasher hash₃ default_entry m low s.tree), s)
  unfolding get_non_membership_proof and_then ◌>>=◌ ◌>>◌ throw_if or_throw read_leaves read_tree
  non_membership_valid m v low s non_zero absent found documented =
      rw (==_false v 0 non_zero, absent, documented, found) refl

  -- Where tree and leaves agree, of a value other than zero that is not stored the proof succeeds
  -- and changes nothing: it is of a leaf with a lesser value whose next value, if it has one, is
  -- greater, and it names this leaf's hash and place and folds to the root of the metadata.
  pub get_non_membership_proof-fold_path :
      (m : TreeMetadata) (f : ℕ → ℕ) (s : IndexedStore) (v : ℕ)
      → IsIndexed m f s
      → v ≢ 0
      → lookup v s.leaves ≡ none
      → (low : IndexedLeaf) × (proof : MembershipProof) × (get_non_membership_proof hasher hash₃
            default_entry v s
          ≡ (ok proof, s))
        × (proof.node_value ≡ leaf_hash hasher hash₃ default_entry low)
        × (proof.leaf_index ≡ low.id)
        × (fold_path hasher proof.node_value proof.sibling_path ≡ m.root)
        × (low.value < v)
        × ((low.next_value ≡ 0) ⊎ (v < low.next_value))
  unfolding low_leaf_proof
  get_non_membership_proof-fold_path m f s v d non_zero absent =
      let (low, found, below, above) = get_low_leaf_gap v s.leaves d.chain absent in
      let is_low = get_low_leaf-IsLowLeaf v s.leaves found in
      let (inside, hashed) = d.placed low.value low is_low.stored in
      let height = m.tree_height + m.sub_tree_height in
      let some_leaf : 1 ≤ 2 ^ height = one-le-pow height 2 (omega arith) in
      (
        low,
        low_leaf_proof hasher hash₃ default_entry m low s.tree,
        non_membership_valid m v low s non_zero absent found d.tree.documented,
        refl,
        refl,
        ap
              (λ (t : ℕ).
                fold_path hasher t
                  (sibling_path_loop (λ j. get_node j s.tree) height (2 ^ height - 1 + low.id)))
              (sym hashed ∙ sym (d.tree.full.leaves low.id inside))
            ∙ fold_path-heap hasher (λ j. get_node j s.tree) height (2 ^ height - 1 + low.id)
                d.tree.full.heap (omega arith) (omega arith)
            ∙ IsFull-root_of hasher height f (λ j. get_node j s.tree) d.tree.full
            ∙ sym d.tree.rooted,
        below,
        above,
      )

  -- Zero, and a value that is stored, are refused.
  pub get_non_membership_proof_refused :
      (s : IndexedStore) (v : ℕ)
      → (v ≡ 0) ⊎ ((l : IndexedLeaf) × (lookup v s.leaves ≡ some l))
      → get_non_membership_proof hasher hash₃ default_entry v s ≡ (err (error leaf_exists), s)
  unfolding get_non_membership_proof and_then ◌>>=◌ ◌>>◌ throw_if or_throw read_leaves read_tree
  get_non_membership_proof_refused s v (inl is_zero) = rw is_zero refl
  get_non_membership_proof_refused s v (inr (l, stored)) = elim (Bool-cases (v == 0)) [
    | inl is_zero ↦ rw is_zero refl
    | inr non_zero ↦ rw (non_zero, stored) refl
  ]

  pub zero_only :
      (w : ℕ) (l : IndexedLeaf) → lookup w (default_leaf ∷ []) ≡ some l → l ≡ default_leaf
  unfolding get_leaf find_one leaf_query
  zero_only w l e = elim (Bool-cases (0 == w)) [
    | inl here ↦ (let e' : some default_leaf ≡ some l = rw here at e in cc)
    | inr away ↦ ground (arith, e, away)
  ]

  -- Where the hash of two zeros is zero, a new tree in a database without documents of it succeeds:
  -- tree and leaves agree, and one sub tree is counted.
  pub new_indexed_tree-IsIndexed :
      hasher 0 0 ≡ 0
      → (height sub_height : ℕ) (t : MutableStore)
      → (m : TreeMetadata) × (f : ℕ → ℕ) × (s : IndexedStore) × (new_indexed_tree hasher hash₃
            default_entry height sub_height
            (record { tree = reset_mutable_tree t; leaves = [] })
          ≡ (ok tt, s))
        × IsIndexed m f s
        × (m.sub_tree_count ≡ 1)
  unfolding new_indexed_tree and_then ◌>>=◌ ◌>>◌ return_ok or_throw read_leaves write_leaves
      with_leaves on_tree new_indexed_leaves_db get_leaf find_one leaf_query
  new_indexed_tree-IsIndexed z height sub_height t =
      let (m, t₁, made, d, fresh, _) = new_mutable_tree-Represents hasher z height sub_height t in
      let first : m.sub_tree_count < 2 ^ m.tree_height =
        omega (arith, fresh, one-le-pow m.tree_height 2 (omega arith)) in
      let leaf : ℕ = leaf_hash hasher hash₃ default_entry default_leaf in
      let (f, t₂, shape, inserted, d') = insert_leaf-Represents hasher m leaf (λ i. 0) t₁ d first in
      (
        _,
        f,
        record { tree = t₂; leaves = default_leaf ∷ [] },
        rw (made, inserted) refl,
        record {
          tree = d';
          chain = zero_leaf-IsChain;
          placed = λ w l e.
              let in_tree : 0 < 2 ^ (m.tree_height + m.sub_tree_height) =
                one-le-pow (m.tree_height + m.sub_tree_height) 2 (omega arith) in
              let at_zero : f 0 ≡ leaf =
                ap (λ (g : ℕ → ℕ). g 0) shape
                ∙ first_leaf m.sub_tree_count m.sub_tree_height leaf fresh in
              rw (zero_only w l e) (in_tree, at_zero);
        },
        omega arith,
      )
