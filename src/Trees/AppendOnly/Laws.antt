-- ===== src/Trees/AppendOnly/Laws.antt =====
-- What the two operations of the append-only tree promise, over the documents in the database.
use nightfall_4_ce.Common.{
  ℕ, zero, suc, ◌+◌, ◌*◌, ◌%◌, ◌^◌, ◌≤◌, ◌<◌, ◌≡◌, ◌≢◌, refl, ◌∙◌, ap, arith, List, [], ◌∷◌, ◌++◌,
  Bool, take, length-take, get_elem?, Option-cases, inl, inr, true, false, some, none, length,
  replicate, length-replicate, ok, err, ltb-false, ==_self, ==_false, ltb-false,
}
use native.Mathlib.Nat.{one-le-pow, mul-mod_left, mod-eq_of_lt}
use native.Mathlib.Decide.{dec_lt}
use nightfall_4_ce.Trees.Types.{panic, error, incorrect_batch_size, database_error}
use nightfall_4_ce.Trees.Root.{root_of, leaf_at}
use nightfall_4_ce.Trees.AppendOnly.Frontier.{get_frontier_index_lem, TrailingOnes-last}
use nightfall_4_ce.Trees.AppendOnly.Walk.{walk, IsFrontier}
use nightfall_4_ce.Trees.AppendOnly.Append.{
  Describes, meta_of, append_batches-Ends, append_root_path, sub_tree_root_of-eq,
}
use nightfall_4_ce.Trees.AppendOnly.Defs.{
  AppendOnlyStore, Progress, append_root, update_frontier, append_batches, chunk_list, chunks,
  append_sub_trees, write_back, new_append_only_tree,
}

-- The documents of a tree; the root that they hold is the one of the empty tree.
abbrev pub store_of : ℕ → ℕ → Progress → AppendOnlyStore
store_of height sub p = record {
  metadata = some (meta_of height sub p.sub_tree_count 0);
  frontier = some p.frontier;
}

abbrev pub empty_store : AppendOnlyStore
empty_store = record { metadata = none; frontier = none }

pub mul_mono : (n k w : ℕ) → n ≤ k → n * w ≤ k * w
mul_mono n k w h = grind arith

room_for : (c m w n : ℕ) → c * w + m * w < n * w → c + m < n
room_for c m w n h = elim (dec_lt (c + m) n) [
  | yes lt ↦ lt
  | no ge ↦ absurd (omega (arith, mul_mono n (c + m) w (omega arith)))
]

no_place :
    (p : Progress) (path : List ℕ) (k : ℕ)
    → length p.frontier ≤ k
    → update_frontier p (some path) (some k) ≡ err panic
unfolding update_frontier
no_place p path k h = elim (Option-cases (get_elem? path k)) [
  | inl gone ↦ rw (update_frontier, gone)
  | inr (q, e) ↦ rw (update_frontier, e, ltb-false k (length p.frontier) h)
]

module _ (hasher : ℕ → ℕ → ℕ) (height sub : ℕ) where
  IsFrontier-empty : (h : ℕ) (f : ℕ → ℕ) → IsFrontier hasher (replicate h 0) 0 f
  IsFrontier-empty zero f = tt
  IsFrontier-empty (suc h) f = (λ odd. absurd (omega arith), IsFrontier-empty h _)

  -- A new tree is the tree over no leaves; a second one with its name is refused with a database error, and nothing is written.
  pub new_append_only_tree-Describes :
      (p : Progress) × (new_append_only_tree height sub empty_store
        ≡ (ok tt, store_of height sub p))
      × Describes hasher height sub p []
      × ((q : Progress) (h s : ℕ)
          → new_append_only_tree h s (store_of height sub q)
            ≡ (err (error database_error), store_of height sub q))
  unfolding new_append_only_tree
  new_append_only_tree-Describes = (
    record { frontier = replicate height 0; sub_tree_count = 0; root = 0 },
    refl,
    record {
      size = length-replicate {A = ℕ} height 0;
      counted = omega arith;
      held = IsFrontier-empty height _;
    },
    λ q h s. refl,
  )

  -- Leaves that do not fill whole sub trees are refused, and nothing is written.
  pub append_sub_trees_wrong_size :
      (leaves : List ℕ) (update_tree : Bool) (p : Progress)
      → length leaves % 2 ^ sub ≢ 0
      → append_sub_trees hasher leaves update_tree (store_of height sub p)
        ≡ (err (error incorrect_batch_size), store_of height sub p)
  unfolding append_sub_trees
  append_sub_trees_wrong_size leaves update_tree p h = rw (==_false (length leaves % 2 ^ sub) 0 h)

  -- An append of no leaves answers zero, the root of the metadata, and writes nothing, whatever
  -- leaves the tree holds.
  append_sub_trees_nothing :
      (update_tree : Bool) (p : Progress)
      → append_sub_trees hasher [] update_tree (store_of height sub p)
        ≡ (ok 0, store_of height sub p)
  unfolding append_sub_trees
  append_sub_trees_nothing update_tree p =
      rw (mod-eq_of_lt {n = 0} {m = 2 ^ sub} (one-le-pow sub 2 (omega arith)))

  -- A call that passes the checks runs the loop over the batches.
  append_sub_trees_valid :
      (leaves : List ℕ) (update_tree : Bool) (p : Progress)
      → length leaves % 2 ^ sub ≡ 0
      → 0 < length leaves
      → p.sub_tree_count ≤ 2 ^ height
      → length p.frontier ≡ height
      → append_sub_trees hasher leaves update_tree (store_of height sub p)
        ≡ write_back update_tree (meta_of height sub p.sub_tree_count 0) (store_of height sub p) (
            append_batches hasher
              (meta_of height sub p.sub_tree_count 0)
              (chunk_list (length leaves) (2 ^ sub) leaves)
              (record p { root = 0 }))
  unfolding append_sub_trees chunks
  append_sub_trees_valid leaves update_tree p whole more room size = rw (
    whole,
    ==_false (length leaves) 0 (λ z. omega arith),
    ltb-false (2 ^ height) p.sub_tree_count room,
    size,
    ==_self height,
  )

  -- Where the hash of two zeros is zero and the documents describe the tree over the leaves `all`,
  -- whole sub trees, at least one, that leave the last place free are appended: the answer is the
  -- Merkle root over all leaves, old and new. With `update_tree` the documents then describe all of
  -- them, and without it they are unchanged.
  pub append_sub_trees_lem :
      hasher 0 0 ≡ 0
      → (p : Progress) (all leaves : List ℕ) (m : ℕ) → Describes hasher height sub p all
      → 0 < m
      → length leaves ≡ m * 2 ^ sub
      → length all + length leaves < 2 ^ height * 2 ^ sub
      → (p' : Progress) × (append_sub_trees hasher leaves true (store_of height sub p)
          ≡ (ok (root_of hasher (height + sub) (leaf_at (all ++ leaves))), store_of height sub p'))
        × (append_sub_trees hasher leaves false (store_of height sub p)
            ≡ (ok (root_of hasher (height + sub) (leaf_at (all ++ leaves))), store_of height sub p))
        × Describes hasher height sub p' (all ++ leaves)
  unfolding write_back
  append_sub_trees_lem zero_hash p all leaves m d more full room =
      let positive : 1 ≤ 2 ^ sub = one-le-pow sub 2 (omega arith) in
      let space : p.sub_tree_count + m < 2 ^ height =
        room_for p.sub_tree_count m (2 ^ sub) (2 ^ height) (omega (arith, d.counted, full)) in
      let (p', done, ends) =
        append_batches-Ends hasher height sub zero_hash p.sub_tree_count 0 (length leaves) m leaves
          all (record p { root = 0 }) (record { size = d.size; counted = d.counted; held = d.held })
          full (grind arith) space in
      let whole : length leaves % 2 ^ sub ≡ 0 = rw full (mul-mod_left m (2 ^ sub)) in
      let valid =
        λ (u : Bool). append_sub_trees_valid leaves u p whole (grind arith) (omega arith) d.size in
      (
        p',
        valid true ∙ rw done (ap (λ (t : ℕ). (ok t, store_of height sub p')) (ends.rooted more)),
        valid false ∙ rw done (ap (λ (t : ℕ). (ok t, store_of height sub p)) (ends.rooted more)),
        ends.describes,
      )

  append_root_last :
      (p : Progress) (x : ℕ)
      → length p.frontier ≡ height
      → p.sub_tree_count + 1 ≡ 2 ^ height
      → append_root hasher height x p ≡ err panic
  unfolding append_root
  append_root_last p x size last =
      let (k, found, ones) = get_frontier_index_lem p.sub_tree_count in
      let top = TrailingOnes-last height p.sub_tree_count ones last in
      rw (append_root_path hasher height sub p x size, found)
        (no_place p (walk hasher p.frontier p.sub_tree_count x) k (omega (arith, top, size)))

  append_batches_last :
      (fuel m : ℕ) (leaves : List ℕ) (p : Progress)
      → hasher 0 0 ≡ 0
      → length p.frontier ≡ height
      → p.sub_tree_count + 1 ≡ 2 ^ height
      → length leaves ≡ suc m * 2 ^ sub
      → 0 < fuel
      → append_batches hasher
          (meta_of height sub p.sub_tree_count 0)
          (chunk_list fuel (2 ^ sub) leaves)
          p
        ≡ err panic
  unfolding append_batches chunk_list
  append_batches_last zero m leaves p z size last full pos = absurd (omega arith)
  append_batches_last (suc fuel) m [] p z size last full pos =
      absurd (omega (arith, one-le-pow sub 2 (omega arith)))
  append_batches_last (suc fuel) m (x ∷ xs) p z size last full pos =
      let whole : length (take (2 ^ sub) (x ∷ xs)) ≡ 2 ^ sub =
        omega (arith, length-take (2 ^ sub) (x ∷ xs), full) in
      rw (
        sub_tree_root_of-eq hasher height sub z (take (2 ^ sub) (x ∷ xs)) whole,
        append_root_last p (root_of hasher sub (leaf_at (take (2 ^ sub) (x ∷ xs)))) size last,
      )

  -- Where the hash of two zeros is zero and all places but the last are taken, an append of whole
  -- sub trees, at least one, panics and writes nothing, since the frontier has no entry for the
  -- last place.
  pub append_sub_trees_last :
      hasher 0 0 ≡ 0
      → (leaves : List ℕ) (update_tree : Bool) (p : Progress) (m : ℕ) → length p.frontier ≡ height
      → p.sub_tree_count + 1 ≡ 2 ^ height
      → length leaves ≡ suc m * 2 ^ sub
      → append_sub_trees hasher leaves update_tree (store_of height sub p)
        ≡ (err panic, store_of height sub p)
  unfolding write_back
  append_sub_trees_last zero_hash leaves update_tree p m size last full =
      let positive : 1 ≤ 2 ^ sub = one-le-pow sub 2 (omega arith) in
      let whole : length leaves % 2 ^ sub ≡ 0 = rw full (mul-mod_left (suc m) (2 ^ sub)) in
      let more : 0 < length leaves = omega (arith, full) in
      append_sub_trees_valid leaves update_tree p whole more (omega arith) size
      ∙ rw (
          append_batches_last (length leaves) m leaves (record p { root = 0 }) zero_hash size last
            full more)
