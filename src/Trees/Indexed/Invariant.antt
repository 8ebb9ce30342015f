-- ===== src/Trees/Indexed/Invariant.antt =====
-- Both insertions into an indexed tree, `insert_leaves` and `batch_insert_nullifiers_with_circuit_info`
-- of `lib/src/merkle_trees/indexed.rs`, keep its leaves linked.
use nightfall_4_ce.Common.{Bool, ℕ, ◌+◌, List, [], ◌∷◌, some, ltb, ◌==◌}
use nightfall_4_ce.Trees.Types.{TreeMetadata}
use nightfall_4_ce.Trees.AppendOnly.Defs.{chunks}
use nightfall_4_ce.Trees.Indexed.Defs.{IndexedLeaf}
use nightfall_4_ce.Trees.Indexed.Chain.{IsChain}
use nightfall_4_ce.Trees.Indexed.State.{IndexedStore}
use nightfall_4_ce.Trees.Indexed.Tree.{
  LeafDbEntry, store_values, update_low_leaves, insert_some_leaves, insert_leaves,
  get_non_membership_proof,
}
use nightfall_4_ce.Trees.Indexed.Circuit.{
  insert_known, insert_pending, insert_non_zero, insert_nullifier, insert_nullifiers,
  insert_nullifiers_for_circuit, insert_all_for_circuit, batch_insert_nullifiers_with_circuit_info,
}
use nightfall_4_ce.Trees.Indexed.Growth.{
  IsGrown, Grows, Grows-bind, Grows-then, Grows-return_ok, Grows-read_leaves, Grows-read_tree,
  Grows-on_tree, Grows-throw_if, Grows-or_throw, Grows-if, Grows-store,
}

store_values-Grows : (values : List ℕ) (index : ℕ) → Grows (store_values values index)
unfolding store_values
store_values-Grows [] index = Grows-return_ok _
store_values-Grows (v ∷ vs) index =
    Grows-then _ _ (Grows-if (v == 0) _ _ (Grows-return_ok _) (Grows-store v (some index)))
      (store_values-Grows vs (index + 1))

module _ (hasher : ℕ → ℕ → ℕ) (hash₃ : ℕ → ℕ → ℕ → ℕ) (default_entry : LeafDbEntry) where
  update_low_leaves-Grows :
      (ls : List IndexedLeaf) (root : ℕ)
      → Grows (update_low_leaves hasher hash₃ default_entry ls root)
  unfolding update_low_leaves
  update_low_leaves-Grows [] root = Grows-return_ok _
  update_low_leaves-Grows (l ∷ ls) root =
      Grows-bind _ _ (Grows-on_tree _) (λ root'. update_low_leaves-Grows ls root')

  insert_some_leaves-Grows :
      (values : List ℕ) → Grows (insert_some_leaves hasher hash₃ default_entry values)
  unfolding insert_some_leaves
  insert_some_leaves-Grows values = Grows-bind _ _ (Grows-read_leaves _) (λ stored.
      Grows-then _ _ (Grows-throw_if stored _) (
        Grows-bind _ _ (Grows-read_leaves _) (λ lows.
          Grows-bind _ _ (Grows-read_tree _) (λ document.
            Grows-bind _ _ (Grows-or_throw document _) (λ m.
              Grows-then _ _ (store_values-Grows values _) (
                Grows-bind _ _ (Grows-read_leaves _) (λ found.
                  Grows-bind _ _ (Grows-or_throw found _) (λ leaves.
                    Grows-bind _ _ (Grows-on_tree _) (λ appended.
                      Grows-bind _ _ (Grows-read_leaves _) (λ changed.
                        Grows-bind _ _ (Grows-or_throw changed _)
                          (λ low_leaves. update_low_leaves-Grows low_leaves 0)))))))))))

  insert_leaves-Grows : (values : List ℕ) → Grows (insert_leaves hasher hash₃ default_entry values)
  unfolding insert_leaves
  insert_leaves-Grows [] = Grows-on_tree _
  insert_leaves-Grows (v ∷ vs) = insert_some_leaves-Grows (v ∷ vs)

  get_non_membership_proof-Grows :
      (v : ℕ) → Grows (get_non_membership_proof hasher hash₃ default_entry v)
  unfolding get_non_membership_proof
  get_non_membership_proof-Grows v = Grows-then _ _ (Grows-throw_if _ _) (
      Grows-bind _ _ (Grows-read_leaves _) (λ found. Grows-then _ _ (Grows-throw_if _ _) (
        Grows-bind _ _ (Grows-read_tree _) (λ document.
          Grows-bind _ _ (Grows-or_throw document _) (λ m.
            Grows-bind _ _ (Grows-read_leaves _)
              (λ lowest. Grows-bind _ _ (Grows-or_throw lowest _) (λ low. Grows-read_tree _)))))))

  insert_known-Grows :
      (v index : ℕ) (low : IndexedLeaf)
      → Grows (insert_known hasher hash₃ default_entry v index low)
  unfolding insert_known
  insert_known-Grows v index low = Grows-bind _ _ (get_non_membership_proof-Grows v) (λ proof.
      Grows-then _ _ (Grows-store v (some index)) (
        Grows-bind _ _ (Grows-read_leaves _) (λ found.
          Grows-bind _ _ (Grows-or_throw found _)
            (λ updated. Grows-bind _ _ (Grows-on_tree _) (λ root. Grows-return_ok _)))))

  insert_pending-Grows :
      (m : TreeMetadata) (v index : ℕ) (low : IndexedLeaf)
      → Grows (insert_pending hasher hash₃ default_entry m v index low)
  unfolding insert_pending
  insert_pending-Grows m v index low =
      Grows-then _ _ (Grows-store v (some index)) (Grows-return_ok _)

  insert_nullifier-Grows :
      (m : TreeMetadata) (first v index : ℕ)
      → Grows (insert_nullifier hasher hash₃ default_entry m first v index)
  unfolding insert_nullifier insert_non_zero
  insert_nullifier-Grows m first v index = Grows-bind _ _ (Grows-read_leaves _) (λ found.
      Grows-then _ _ (Grows-throw_if _ _) (
        Grows-if (v == 0) _ _ (Grows-return_ok _) (
          Grows-bind _ _ (Grows-read_leaves _) (λ lowest.
            Grows-bind _ _ (Grows-or_throw lowest _) (λ low.
              Grows-bind _ _
                (Grows-if (ltb low.id first) _ _ (insert_known-Grows v index low)
                  (insert_pending-Grows m v index low))
                (λ proof. Grows-return_ok _))))))

  insert_nullifiers-Grows :
      (m : TreeMetadata) (first : ℕ) (vs : List ℕ) (index : ℕ)
      → Grows (insert_nullifiers hasher hash₃ default_entry m first vs index)
  unfolding insert_nullifiers
  insert_nullifiers-Grows m first [] index = Grows-return_ok _
  insert_nullifiers-Grows m first (v ∷ vs) index =
      Grows-bind _ _ (insert_nullifier-Grows m first v index) (λ low.
        Grows-bind _ _ (insert_nullifiers-Grows m first vs (index + 1)) (λ lows. Grows-return_ok _))

  insert_nullifiers_for_circuit-Grows :
      (debug_on : Bool) (vs : List ℕ)
      → Grows (insert_nullifiers_for_circuit hasher hash₃ default_entry debug_on vs)
  unfolding insert_nullifiers_for_circuit
  insert_nullifiers_for_circuit-Grows debug_on vs = Grows-bind _ _ (Grows-read_tree _) (λ document.
      Grows-bind _ _ (Grows-or_throw document _) (λ m. Grows-then _ _ (Grows-throw_if _ _) (
        Grows-bind _ _ (insert_nullifiers-Grows m _ vs _) (λ lows.
          Grows-bind _ _ (Grows-read_leaves _) (λ found.
            Grows-bind _ _ (Grows-or_throw found _)
              (λ pending. Grows-bind _ _ (Grows-on_tree _) (λ info. Grows-return_ok _)))))))

  insert_all_for_circuit-Grows :
      (debug_on : Bool) (batches : List (List ℕ))
      → Grows (insert_all_for_circuit hasher hash₃ default_entry debug_on batches)
  unfolding insert_all_for_circuit
  insert_all_for_circuit-Grows debug_on [] = Grows-return_ok _
  insert_all_for_circuit-Grows debug_on (batch ∷ batches) =
      Grows-bind _ _ (insert_nullifiers_for_circuit-Grows debug_on batch) (λ info.
        Grows-bind _ _ (insert_all_for_circuit-Grows debug_on batches) (λ infos. Grows-return_ok _))

  -- Where the leaves are linked, after the insertion of any values by `insert_leaves`, or by
  -- `batch_insert_nullifiers_with_circuit_info`, with success or with any error or panic, the
  -- leaves are linked, and every value that was stored still is, in its place.
  pub insert_leaves-IsGrown :
      (debug_on : Bool) (values : List ℕ) (s : IndexedStore)
      → IsChain s.leaves
      → IsGrown s.leaves (insert_leaves hasher hash₃ default_entry values s).1.leaves
        × IsGrown s.leaves
            (batch_insert_nullifiers_with_circuit_info hasher hash₃ default_entry debug_on values
              s).1.leaves
  unfolding batch_insert_nullifiers_with_circuit_info
  insert_leaves-IsGrown debug_on values s chain = (
    insert_leaves-Grows values s chain,
    insert_all_for_circuit-Grows debug_on (chunks 8 values) s chain,
  )
