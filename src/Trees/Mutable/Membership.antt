-- ===== src/Trees/Mutable/Membership.antt =====
-- What a proof of `get_membership_proof` is worth to a verifier.
use nightfall_4_ce.Common.{
  ℕ, Bool, if◌then◌else◌, ◌+◌, ◌-◌, ◌*◌, ◌^◌, ◌≤◌, ◌<◌, ◌≡◌, ◌⊎◌, inl, inr, refl, sym, ap, ◌∙◌,
  arith, none, some, ok, err, lt→ltb, ltb-false,
}
use native.Mathlib.Nat.{pow-suc, one-le-pow}
use native.Mathlib.Numerals.{add-one}
use native.Mathlib.Decide.{dec_lt}
use nightfall_4_ce.Trees.Types.{TreeMetadata, error, panic, invalid_proof}
use nightfall_4_ce.Trees.Mutable.Store.{MutableStore, get_node}
use nightfall_4_ce.Trees.Mutable.Defs.{
  MembershipProof, sibling_path_loop, get_membership_proof, proof_node, proof_at,
}
use nightfall_4_ce.Trees.Mutable.Place.{IsFull-root_of}
use nightfall_4_ce.Trees.Mutable.Laws.{Represents}
use nightfall_4_ce.Trees.Mutable.Proofs.{fold_path, fold_path-heap}

pub proof_found :
    (debug_on : Bool) (m : TreeMetadata) (i : ℕ) (s : MutableStore)
    → s.metadata ≡ some m
    → i < 2 ^ (m.tree_height + m.sub_tree_height)
    → get_membership_proof debug_on none (some i) s
      ≡ ok (record {
        node_value = get_node (2 ^ (m.tree_height + m.sub_tree_height) - 1 + i) s;
        sibling_path =
            sibling_path_loop
              (λ j. get_node j s)
              (m.tree_height + m.sub_tree_height)
              (2 ^ (m.tree_height + m.sub_tree_height) - 1 + i);
        leaf_index = i;
      })
unfolding get_membership_proof proof_node proof_at
proof_found debug_on m i s e lt =
    let height : ℕ = m.tree_height + m.sub_tree_height in
    let wide : 2 ^ (height + 1) ≡ 2 ^ height * 2 =
      ap (λ (t : ℕ). 2 ^ t) (add-one height) ∙ pow-suc 2 height in
    let some_leaf : 1 ≤ 2 ^ height = one-le-pow height 2 (omega arith) in
    let at : i + 2 ^ height - 1 ≡ 2 ^ height - 1 + i = omega arith in
    let back : 2 ^ height - 1 + i + 1 - 2 ^ height ≡ i = omega arith in
    rw
      (
        e,
        at,
        ltb-false (2 ^ height - 1 + i) (2 ^ height - 1) (omega arith),
        ltb-false (2 ^ (height + 1) - 2) (2 ^ height - 1 + i) (omega arith),
        back,
      )
      refl

module _ (hasher : ℕ → ℕ → ℕ) where
  -- Where a store represents the tree over some leaves, a proof for an index and no leaf: for a
  -- place inside the tree it has the leaf and the place and folds the leaf to the root of the
  -- metadata; for an index outside it is refused as invalid, or is a panic where debug messages are
  -- written.
  pub get_membership_proof-fold_path :
      (debug_on : Bool) (m : TreeMetadata) (f : ℕ → ℕ) (s : MutableStore)
      → Represents hasher m f s
      → (i : ℕ)
      → ((i < 2 ^ (m.tree_height + m.sub_tree_height))
          × ((proof : MembershipProof) × (get_membership_proof debug_on none (some i) s ≡ ok proof)
              × (proof.node_value ≡ f i)
              × (proof.leaf_index ≡ i)
              × (fold_path hasher (f i) proof.sibling_path ≡ m.root)))
        ⊎ ((2 ^ (m.tree_height + m.sub_tree_height) ≤ i)
            × (get_membership_proof debug_on none (some i) s
                ≡ err (if debug_on then panic else error invalid_proof)))
  unfolding get_membership_proof proof_node proof_at
  get_membership_proof-fold_path debug_on m f s d i =
      let height : ℕ = m.tree_height + m.sub_tree_height in
      let some_leaf : 1 ≤ 2 ^ height = one-le-pow height 2 (omega arith) in
      elim (dec_lt i (2 ^ height)) [
        | yes inside ↦ inl (
          inside,
          (
            _,
            proof_found debug_on m i s d.documented inside,
            d.full.leaves i inside,
            refl,
            ap
                  (λ (t : ℕ).
                    fold_path hasher t
                      (sibling_path_loop (λ j. get_node j s) height (2 ^ height - 1 + i)))
                  (sym (d.full.leaves i inside))
                ∙ fold_path-heap hasher (λ j. get_node j s) height (2 ^ height - 1 + i) d.full.heap
                    (omega arith) (omega arith)
                ∙ IsFull-root_of hasher height f (λ j. get_node j s) d.full
                ∙ sym d.rooted,
          ),
        )
        | no outside ↦ inr (
          omega arith,
          rw
              (
                d.documented,
                ltb-false (i + 2 ^ height - 1) (2 ^ height - 1) (omega arith),
                lt→ltb (2 ^ (height + 1) - 2) (i + 2 ^ height - 1)
                    (omega (arith, ap (λ (t : ℕ). 2 ^ t) (add-one height), pow-suc 2 height)),
              )
              refl,
        )
      ]
