-- ===== src/Tests/Mutable.antt =====
-- The mutable tree of `lib/src/merkle_trees/mutable.rs` and the indexed tree of
-- `lib/src/merkle_trees/indexed.rs` at concrete inputs.
use nightfall_4_ce.Common.{
  ℕ, ◌+◌, ◌*◌, ◌^◌, ◌<◌, ◌≤◌, ◌≡◌, ◌⊎◌, inr, refl, sym, arith, true, false, List, [], ◌∷◌, ◌++◌,
  none, some, ok, err, length,
}
use nightfall_4_ce.Trees.Types.{panic, TreeMetadata}
use nightfall_4_ce.Trees.Root.{root_of, root_of_zeros, leaf_at}
use nightfall_4_ce.Trees.AppendOnly
use nightfall_4_ce.Trees.AppendOnly.Append.{Describes}
use nightfall_4_ce.Trees.AppendOnly.Laws.{store_of}
use nightfall_4_ce.Trees.Indexed.Defs.{IndexedLeaf, default_leaf, get_leaf}
use nightfall_4_ce.Trees.Indexed.State.{IndexedStore}
use nightfall_4_ce.Trees.Indexed.Tree.{
  LeafDbEntry, leaf_hash, get_non_membership_proof, new_indexed_tree, insert_leaves,
}
use nightfall_4_ce.Trees.Indexed.Circuit.{batch_insert_nullifiers_with_circuit_info}
use nightfall_4_ce.Trees.Indexed.Growth.{IsGrown}
use nightfall_4_ce.Trees.Indexed.Invariant.{insert_leaves-IsGrown}
use nightfall_4_ce.Trees.Indexed.Laws.{zero_leaf-IsChain}
use nightfall_4_ce.Trees.Indexed.Membership.{
  IsIndexed, zero_only, get_non_membership_proof-fold_path, new_indexed_tree-IsIndexed,
}
use nightfall_4_ce.Trees.Mutable.Store.{
  MutableStore, find_id, stored_node, get_node, flush_cache, set_nodes, reset_mutable_tree,
}
use nightfall_4_ce.Trees.Mutable.Defs.{
  MembershipProof, CircuitInsertionInfo, append_sub_trees, get_membership_proof,
}
use nightfall_4_ce.Trees.Mutable.Update.{
  update_sub_tree, insert_for_circuit, batch_insert_with_circuit_info,
}
use nightfall_4_ce.Trees.Mutable.Overlay.{flush_cache-stale}
use nightfall_4_ce.Trees.Mutable.Place.{with_block}
use nightfall_4_ce.Trees.Mutable.Laws.{Represents, root_over, append_sub_trees-Represents}
use nightfall_4_ce.Trees.Mutable.Agree.{append_sub_trees_dry_run, trees_agree}
use nightfall_4_ce.Trees.Mutable.Proofs.{fold_path}
use nightfall_4_ce.Trees.Mutable.Membership.{get_membership_proof-fold_path}
use nightfall_4_ce.Trees.Mutable.Circuit.{insert_for_circuit-fold_path}
use nightfall_4_ce.Trees.Mutable.Insert.{update_sub_tree-Represents}
use nightfall_4_ce.Trees.Mutable.Batch.{
  leaves_of, IsChained, batch_insert_with_circuit_info-IsChained,
}

abbrev pub hasher : ℕ → ℕ → ℕ
hasher a b = a + 2 * b

-- A tree of height two over sub trees of height one, with no leaves.
abbrev pub meta : TreeMetadata
meta = record { tree_height = 2; sub_tree_height = 1; sub_tree_count = 0; root = 0 }

abbrev blank : MutableStore
blank = record { metadata = some meta; nodes = []; cache = [] }

blank-Represents : Represents hasher meta (leaf_at []) blank
unfolding get_node stored_node find_id
blank-Represents = record {
  documented = refl;
  cacheless = refl;
  full = record { heap = λ j lt. refl; leaves = λ i lt. refl };
  rooted = sym (root_of_zeros hasher 3 (leaf_at []) refl (λ i. refl));
}

append_sub_trees-Represents_example :
    (m' : TreeMetadata) × (s' : MutableStore) × (append_sub_trees hasher (5 ∷ 7 ∷ []) true blank ≡ (
      ok (root_over hasher meta (leaf_at ([] ++ 5 ∷ 7 ∷ [])), length {A = ℕ} ([] ++ 5 ∷ 7 ∷ [])),
      s',
    ))
    × Represents hasher m' (leaf_at ([] ++ 5 ∷ 7 ∷ [])) s'
    × (m' ≡ record meta {
      sub_tree_count = 0 + 1;
      root = root_over hasher meta (leaf_at ([] ++ 5 ∷ 7 ∷ []));
    })
append_sub_trees-Represents_example =
    append_sub_trees-Represents hasher meta [] (5 ∷ 7 ∷ []) 1 blank blank-Represents refl refl
      (omega arith) (omega arith)

append_sub_trees_dry_run_example :
    (s' : MutableStore) × (append_sub_trees hasher (5 ∷ 7 ∷ []) false blank
      ≡ (ok (root_over hasher meta (leaf_at ([] ++ 5 ∷ 7 ∷ [])), length {A = ℕ} []), s'))
    × (s'.nodes ≡ blank.nodes)
    × (s'.metadata ≡ blank.metadata)
append_sub_trees_dry_run_example =
    append_sub_trees_dry_run hasher meta [] (5 ∷ 7 ∷ []) 1 blank blank-Represents refl refl
      (omega arith) (omega arith)

abbrev frontier : AppendOnly.Defs.Progress
frontier = record { frontier = 0 ∷ 0 ∷ []; sub_tree_count = 0; root = 0 }

frontier-Describes : Describes hasher 2 1 frontier []
frontier-Describes = record {
  size = refl;
  counted = refl;
  held = (λ odd. absurd (omega arith), (λ odd. absurd (omega arith), tt));
}

trees_agree_example :
    (root : ℕ) × (p' : AppendOnly.Defs.Progress) × (m' : TreeMetadata) × (s' : MutableStore)
    × (AppendOnly.Defs.append_sub_trees hasher (5 ∷ 7 ∷ []) true (store_of 2 1 frontier)
        ≡ (ok root, store_of 2 1 p'))
    × (append_sub_trees hasher (5 ∷ 7 ∷ []) true blank
        ≡ (ok (root, length {A = ℕ} ([] ++ 5 ∷ 7 ∷ [])), s'))
    × Describes hasher 2 1 p' ([] ++ 5 ∷ 7 ∷ [])
    × Represents hasher m' (leaf_at ([] ++ 5 ∷ 7 ∷ [])) s'
trees_agree_example =
    trees_agree hasher refl frontier meta [] (5 ∷ 7 ∷ []) 1 blank frontier-Describes
      blank-Represents refl (omega arith) (omega arith) refl

update_sub_tree-Represents_example :
    (s' : MutableStore) × (update_sub_tree hasher 1 (5 ∷ 7 ∷ []) true blank
      ≡ (ok (root_over hasher meta (with_block (leaf_at []) 1 1 (5 ∷ 7 ∷ []))), s'))
    × Represents hasher
        (record meta { root = root_over hasher meta (with_block (leaf_at []) 1 1 (5 ∷ 7 ∷ [])) })
        (with_block (leaf_at []) 1 1 (5 ∷ 7 ∷ []))
        s'
update_sub_tree-Represents_example =
    update_sub_tree-Represents hasher meta 1 1 (5 ∷ 7 ∷ []) (leaf_at []) blank blank-Represents
      (inr refl) refl (omega arith)

get_membership_proof-fold_path_example :
    ((3 < 2 ^ 3)
      × ((proof : MembershipProof) × (get_membership_proof true none (some 3) blank ≡ ok proof)
          × (proof.node_value ≡ leaf_at [] 3)
          × (proof.leaf_index ≡ 3)
          × (fold_path hasher (leaf_at [] 3) proof.sibling_path ≡ meta.root)))
    ⊎ ((2 ^ 3 ≤ 3) × (get_membership_proof true none (some 3) blank ≡ err panic))
get_membership_proof-fold_path_example =
    get_membership_proof-fold_path hasher true meta (leaf_at []) blank blank-Represents 3

insert_for_circuit-fold_path_example :
    (info : CircuitInsertionInfo) × (m' : TreeMetadata) × (s' : MutableStore) × (insert_for_circuit
        hasher false
        (5 ∷ 7 ∷ [])
        blank
      ≡ (ok info, s'))
    × (info.old_root ≡ meta.root)
    × (fold_path hasher 0 info.proof.sibling_path ≡ info.old_root)
    × (fold_path hasher (root_of hasher 1 (leaf_at (5 ∷ 7 ∷ []))) info.proof.sibling_path
        ≡ info.new_root)
    × (info.leaves ≡ 5 ∷ 7 ∷ [])
    × (info.leaf_count ≡ length {A = ℕ} ([] ++ 5 ∷ 7 ∷ []))
    × (m' ≡ record meta { sub_tree_count = 0 + 1; root = info.new_root })
    × Represents hasher m' (leaf_at ([] ++ 5 ∷ 7 ∷ [])) s'
insert_for_circuit-fold_path_example =
    insert_for_circuit-fold_path hasher refl false meta [] (5 ∷ 7 ∷ []) blank blank-Represents refl
      refl (omega arith)

batch_insert_with_circuit_info-IsChained_example :
    (infos : List CircuitInsertionInfo) × (m' : TreeMetadata) × (s' : MutableStore)
    × (batch_insert_with_circuit_info hasher false (5 ∷ 7 ∷ 8 ∷ 9 ∷ []) blank ≡ (ok infos, s'))
    × (length infos ≡ 2)
    × (leaves_of infos ≡ 5 ∷ 7 ∷ 8 ∷ 9 ∷ [])
    × IsChained hasher 1 meta.root infos m'.root
    × Represents hasher m' (leaf_at ([] ++ 5 ∷ 7 ∷ 8 ∷ 9 ∷ [])) s'
batch_insert_with_circuit_info-IsChained_example =
    batch_insert_with_circuit_info-IsChained hasher false refl meta [] (5 ∷ 7 ∷ 8 ∷ 9 ∷ []) 2 blank
      blank-Represents refl refl (omega arith)

-- A dry run has left the value 4 of the node 3 in the cache.
abbrev stale : MutableStore
stale = record { metadata = some meta; nodes = []; cache = record { value = 4; id = 3 } ∷ [] }

flush_cache-stale_example :
    get_node 3 (flush_cache (set_nodes true (record { value = 6; id = 3 } ∷ []) stale)) ≡ 4
unfolding find_id
flush_cache-stale_example = flush_cache-stale 3 4 6 stale (refl, tt) refl

abbrev pub hash₃ : ℕ → ℕ → ℕ → ℕ
hash₃ a b c = a + 2 * b + 4 * c

abbrev pub no_entry : LeafDbEntry
no_entry = record { value = 0; index = 0; next_index = 0; next_value = 0 }

abbrev pub indexed : IndexedStore
indexed = record { tree = blank; leaves = default_leaf ∷ [] }

pub indexed-IsIndexed : IsIndexed hasher hash₃ no_entry meta (leaf_at []) indexed
indexed-IsIndexed = record {
  tree = blank-Represents;
  chain = zero_leaf-IsChain;
  placed = λ w l e. rw (zero_only hasher hash₃ no_entry w l e) (omega arith, refl);
}

get_non_membership_proof-fold_path_example :
    (low : IndexedLeaf) × (proof : MembershipProof) × (get_non_membership_proof hasher hash₃
        no_entry 5 indexed
      ≡ (ok proof, indexed))
    × (proof.node_value ≡ leaf_hash hasher hash₃ no_entry low)
    × (proof.leaf_index ≡ low.id)
    × (fold_path hasher proof.node_value proof.sibling_path ≡ meta.root)
    × (low.value < 5)
    × ((low.next_value ≡ 0) ⊎ (5 < low.next_value))
unfolding get_leaf
get_non_membership_proof-fold_path_example =
    get_non_membership_proof-fold_path hasher hash₃ no_entry meta (leaf_at []) indexed 5
      indexed-IsIndexed (λ e. omega arith) refl

new_indexed_tree-IsIndexed_example :
    (m : TreeMetadata) × (f : ℕ → ℕ) × (s : IndexedStore) × (new_indexed_tree hasher hash₃ no_entry
        2 1
        (record { tree = reset_mutable_tree blank; leaves = [] })
      ≡ (ok tt, s))
    × IsIndexed hasher hash₃ no_entry m f s
    × (m.sub_tree_count ≡ 1)
new_indexed_tree-IsIndexed_example = new_indexed_tree-IsIndexed hasher hash₃ no_entry refl 2 1 blank

insert_leaves-IsGrown_example :
    IsGrown indexed.leaves (insert_leaves hasher hash₃ no_entry (5 ∷ 7 ∷ []) indexed).1.leaves
    × IsGrown indexed.leaves
        (batch_insert_nullifiers_with_circuit_info hasher hash₃ no_entry false
          (5 ∷ 7 ∷ [])
          indexed).1.leaves
insert_leaves-IsGrown_example =
    insert_leaves-IsGrown hasher hash₃ no_entry false (5 ∷ 7 ∷ []) indexed zero_leaf-IsChain
