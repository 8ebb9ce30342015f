-- ===== src/Trees/Mutable/Batch.antt =====
-- `batch_insert_with_circuit_info` of `impl MutableTree` in `lib/src/merkle_trees/mutable.rs`: the
-- insertions of a batch follow each other, root by root.
use nightfall_4_ce.Common.{
  ℕ, Bool, zero, suc, ◌+◌, ◌*◌, ◌%◌, ◌^◌, ◌≤◌, ◌≡◌, refl, ap, ◌∙◌, arith, List, [], ◌∷◌, ◌++◌, some,
  ok, length, take, drop, length-append, length-take, length-drop, take-append-drop,
}
use mathlib.Core.List.{append-nil, append_assoc}
use native.Mathlib.Nat.{one-le-pow, mul-mod_left}
use nightfall_4_ce.Trees.Types.{TreeMetadata}
use nightfall_4_ce.Trees.Root.{root_of, leaf_at}
use nightfall_4_ce.Trees.AppendOnly.Blocks.{none_of}
use nightfall_4_ce.Trees.AppendOnly.Defs.{chunk_list, chunks}
use nightfall_4_ce.Trees.Mutable.Store.{MutableStore}
use nightfall_4_ce.Trees.Mutable.Defs.{CircuitInsertionInfo}
use nightfall_4_ce.Trees.Mutable.Update.{
  insert_for_circuit, insert_chunks, batch_insert_with_circuit_info,
}
use nightfall_4_ce.Trees.Mutable.Laws.{Represents}
use nightfall_4_ce.Trees.Mutable.Proofs.{fold_path}
use nightfall_4_ce.Trees.Mutable.Circuit.{insert_for_circuit-fold_path}

unfoldable pub leaves_of : List CircuitInsertionInfo → List ℕ
leaves_of [] = []
leaves_of (info ∷ infos) = info.leaves ++ leaves_of infos

module _ (hasher : ℕ → ℕ → ℕ) where
  -- Every insertion is one of a whole sub tree, starts from the root that the one before it ended with, shows that its place was
  -- empty, and ends with the root that has its leaves in this place.
  unfoldable pub IsChained : ℕ → ℕ → List CircuitInsertionInfo → ℕ → Type 0
  IsChained k old [] new = old ≡ new
  IsChained k old (info ∷ infos) new =
      (info.old_root ≡ old)
      × (length info.leaves ≡ 2 ^ k)
      × (fold_path hasher 0 info.proof.sibling_path ≡ old)
      × (fold_path hasher (root_of hasher k (leaf_at info.leaves)) info.proof.sibling_path
          ≡ info.new_root)
      × IsChained k info.new_root infos new

module _ (hasher : ℕ → ℕ → ℕ) (debug_on : Bool) where
  -- What the insertion of the batches ends with.
  record IsInserted (k n root : ℕ) (leaves all : List ℕ) (batches : List (List ℕ))
      (s : MutableStore) : Type 0 where
    infos : List CircuitInsertionInfo
    metadata : TreeMetadata
    after : MutableStore
    returned : insert_chunks hasher debug_on batches s ≡ (ok infos, after)
    results : length infos ≡ n
    taken : leaves_of infos ≡ leaves
    chained : IsChained hasher k root infos metadata.root
    represented : Represents hasher metadata (leaf_at (all ++ leaves)) after

  nothing-IsInserted :
      (m : TreeMetadata) (k : ℕ) (all : List ℕ) (s : MutableStore)
      → Represents hasher m (leaf_at all) s
      → IsInserted k 0 m.root [] all [] s
  unfolding insert_chunks leaves_of IsChained
  nothing-IsInserted m k all s d = record {
    infos = [];
    metadata = m;
    after = s;
    returned = refl;
    results = refl;
    taken = refl;
    chained = refl;
    represented = rw (append-nil all) d;
  }

  more-IsInserted :
      (k n root : ℕ) (batch rest leaves all : List ℕ) (batches : List (List ℕ))
      (s s' : MutableStore) (info : CircuitInsertionInfo)
      → batch ++ rest ≡ leaves
      → insert_for_circuit hasher debug_on batch s ≡ (ok info, s')
      → info.leaves ≡ batch
      → length batch ≡ 2 ^ k
      → info.old_root ≡ root
      → fold_path hasher 0 info.proof.sibling_path ≡ info.old_root
      → fold_path hasher (root_of hasher k (leaf_at batch)) info.proof.sibling_path ≡ info.new_root
      → IsInserted k n info.new_root rest (all ++ batch) batches s'
      → IsInserted k (suc n) root leaves all (batch ∷ batches) s
  unfolding insert_chunks leaves_of IsChained
  more-IsInserted k n root batch rest leaves all batches s s' info split inserted own size old empty
        full r =
      record {
        infos = info ∷ r.infos;
        metadata = r.metadata;
        after = r.after;
        returned =
            rw
              (
                insert_chunks,
                ap (λ (p : _). p.0) inserted,
                ap (λ (p : _). p.1) inserted,
                ap (λ (p : _). p.0) r.returned,
                ap (λ (p : _). p.1) inserted,
                ap (λ (p : _). p.1) r.returned,
              )
              refl;
        results = omega (arith, r.results);
        taken = rw (own, r.taken) split;
        chained = (old, ap length own ∙ size, empty ∙ old, rw own full, r.chained);
        represented =
            rw (append_assoc all batch rest ∙ ap (λ (xs : List ℕ). all ++ xs) split) at
              r.represented;
      }

  insert_chunks-IsInserted :
      hasher 0 0 ≡ 0
      → (fuel n k : ℕ) (m : TreeMetadata) (leaves all : List ℕ) (s : MutableStore)
      → Represents hasher m (leaf_at all) s
      → m.sub_tree_height ≡ k
      → length all ≡ m.sub_tree_count * 2 ^ k
      → length leaves ≡ n * 2 ^ k
      → n ≤ fuel
      → m.sub_tree_count + n ≤ 2 ^ m.tree_height
      → IsInserted k n m.root leaves all (chunk_list fuel (2 ^ k) leaves) s
  unfolding chunk_list
  insert_chunks-IsInserted z zero zero k m [] all s d height counted full enough room =
      nothing-IsInserted m k all s d
  insert_chunks-IsInserted z zero (suc n) k m [] all s d height counted full enough room =
      absurd (omega arith)
  insert_chunks-IsInserted z (suc fuel) zero k m [] all s d height counted full enough room =
      nothing-IsInserted m k all s d
  insert_chunks-IsInserted z (suc fuel) (suc n) k m [] all s d height counted full enough room =
      absurd (omega (arith, full, one-le-pow k 2 (omega arith)))
  insert_chunks-IsInserted z zero n k m (x ∷ xs) all s d height counted full enough room =
      absurd (omega (arith, ap (λ (t : ℕ). t * 2 ^ k) (none_of n enough)))
  insert_chunks-IsInserted z (suc fuel) zero k m (x ∷ xs) all s d height counted full enough room =
      absurd (omega arith)
  insert_chunks-IsInserted z (suc fuel) (suc n) k m (x ∷ xs) all s d height counted full enough
        room =
      let width : ℕ = 2 ^ k in
      let batch : List ℕ = take width (x ∷ xs) in
      let size : length batch ≡ width = omega (arith, length-take width (x ∷ xs), full) in
      let (info, m₁, s₁, inserted, old, empty, filled, own, count, written, d₁) =
        insert_for_circuit-fold_path hasher z debug_on m all batch s d (rw height counted)
          (rw height size) (omega arith) in
      let height₁ : m₁.sub_tree_height ≡ k =
        ap (λ (t : TreeMetadata). t.sub_tree_height) written ∙ height in
      let count₁ : m₁.sub_tree_count ≡ m.sub_tree_count + 1 =
        ap (λ (t : TreeMetadata). t.sub_tree_count) written in
      let tall₁ : m₁.tree_height ≡ m.tree_height =
        ap (λ (t : TreeMetadata). t.tree_height) written in
      let root₁ : m₁.root ≡ info.new_root = ap (λ (t : TreeMetadata). t.root) written in
      more-IsInserted k n m.root batch (drop width (x ∷ xs)) (x ∷ xs) all _ s s₁ info
        (take-append-drop width (x ∷ xs)) inserted own size old empty (rw height at filled)
        (rw root₁ at (
          insert_chunks-IsInserted z fuel n k m₁ (drop width (x ∷ xs)) (all ++ batch) s₁ d₁ height₁
            (rw count₁ (omega (arith, length-append all batch)))
            (omega (arith, length-drop width (x ∷ xs), full)) (omega arith)
            (rw (count₁, tall₁) (omega arith))))

  batch_insert_valid :
      (m : TreeMetadata) (leaves : List ℕ) (s : MutableStore)
      → s.metadata ≡ some m
      → length leaves % 2 ^ m.sub_tree_height ≡ 0
      → batch_insert_with_circuit_info hasher debug_on leaves s
        ≡ insert_chunks hasher debug_on (chunks (2 ^ m.sub_tree_height) leaves) s
  unfolding batch_insert_with_circuit_info
  batch_insert_valid m leaves s e whole = rw (e, whole) refl

  -- Where the hash of two zeros is zero, the store represents the tree over the leaves `all` that
  -- fill the counted sub trees, and there is room for the whole sub trees that are inserted: the
  -- insertion succeeds with one result for each sub tree, of as many leaves as a sub tree has.
  -- Their leaves together are the given ones, each starts from the root that the one before it
  -- ended with and proves its place empty before and filled after it, the last ends with the root
  -- of the metadata, and the store then represents all leaves.
  pub batch_insert_with_circuit_info-IsChained :
      hasher 0 0 ≡ 0
      → (m : TreeMetadata) (all leaves : List ℕ) (n : ℕ) (s : MutableStore)
      → Represents hasher m (leaf_at all) s
      → length all ≡ m.sub_tree_count * 2 ^ m.sub_tree_height
      → length leaves ≡ n * 2 ^ m.sub_tree_height
      → m.sub_tree_count + n ≤ 2 ^ m.tree_height
      → (infos : List CircuitInsertionInfo) × (m' : TreeMetadata) × (s' : MutableStore)
        × (batch_insert_with_circuit_info hasher debug_on leaves s ≡ (ok infos, s'))
        × (length infos ≡ n)
        × (leaves_of infos ≡ leaves)
        × IsChained hasher m.sub_tree_height m.root infos m'.root
        × Represents hasher m' (leaf_at (all ++ leaves)) s'
  unfolding chunks
  batch_insert_with_circuit_info-IsChained z m all leaves n s d counted sized room =
      let positive : 1 ≤ 2 ^ m.sub_tree_height = one-le-pow m.sub_tree_height 2 (omega arith) in
      let whole : length leaves % 2 ^ m.sub_tree_height ≡ 0 =
        rw sized (mul-mod_left n (2 ^ m.sub_tree_height)) in
      let w =
        insert_chunks-IsInserted z (length leaves) n m.sub_tree_height m leaves all s d refl counted
          sized (grind arith) room in
      (
        w.infos,
        w.metadata,
        w.after,
        batch_insert_valid m leaves s d.documented whole ∙ w.returned,
        w.results,
        w.taken,
        w.chained,
        w.represented,
      )
