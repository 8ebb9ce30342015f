-- ===== src/Trees/Complete.antt =====
-- `make_complete_tree` builds a heap whose top is the Merkle root of its leaves.
use nightfall_4_ce.Common.{
  ℕ, zero, suc, ◌+◌, ◌-◌, ◌*◌, ◌/◌, ◌^◌, ◌≤◌, ◌<◌, ◌≡◌, refl, sym, ◌∙◌, ap, arith, List, ◌++◌, some,
  length, get_or, set, replicate, ltb-false, length-set, length-append, length-replicate,
  get_or-set_self, get_or-set_ne, get_or-replicate_append, get_or-append_replicate,
}
use mathlib.Core.Path.{ap₂}
use native.Mathlib.Nat.{pow-suc, one-le-pow}
use native.Mathlib.Numerals.{add-one}
use native.Mathlib.Decide.{dec_lt}
use nightfall_4_ce.Trees.Helpers.{hash_pair, hash_nodes, make_complete_tree}
use nightfall_4_ce.Trees.Root.{level_up, root_of, leaf_at}

module _ (hasher : ℕ → ℕ → ℕ) where
  -- The first `r` nodes are the hashes of their children.
  abbrev pub IsHeap : ℕ → List ℕ → Type 0
  IsHeap r nodes =
      (j : ℕ)
      → j < r
      → get_or nodes j 0 ≡ hasher (get_or nodes (2 * j + 1) 0) (get_or nodes (2 * j + 2) 0)

  record Hashed (r : ℕ) (before after : List ℕ) : Type 0 where
    heap : IsHeap r after
    kept : (j : ℕ) → r ≤ j → get_or after j 0 ≡ get_or before j 0
    size : length after ≡ length before

  -- One round: the node `r` becomes the hash of its children, and the others stay.
  hash_pair-eq-set :
      (r index : ℕ) (nodes : List ℕ)
      → index ≡ 2 * suc r
      → hash_pair hasher index nodes
        ≡ set nodes r (hasher (get_or nodes (2 * r + 1) 0) (get_or nodes (2 * r + 2) 0))
  unfolding hash_pair
  hash_pair-eq-set r index nodes e =
      let at : index / 2 - 1 ≡ r = omega arith in
      let left : index - 1 ≡ 2 * r + 1 = omega arith in
      let right : index ≡ 2 * r + 2 = omega arith in rw (at, left, right)

  Hashed-step :
      (r index : ℕ) (nodes after : List ℕ)
      → index ≡ 2 * suc r
      → 2 * suc r < length nodes
      → Hashed r (hash_pair hasher index nodes) after
      → Hashed (suc r) nodes after
  Hashed-step r index nodes after e h rest = record {
    heap = λ j lt. elim (dec_lt j r) [
      | yes below ↦ rest.heap j below
      | no above ↦
          let here : j ≡ r = omega arith in
          rw here (
            rest.kept r (omega arith)
            ∙ ap (λ (xs : List ℕ). get_or xs r 0) written
            ∙ get_or-set_self nodes r v 0 (omega arith)
            ∙ sym (ap₂ hasher (stays (2 * r + 1) (omega arith)) (stays (2 * r + 2) (omega arith))))
    ];
    kept = λ j le. stays j (omega arith);
    size = rest.size ∙ ap length written ∙ length-set nodes r v;
  }
    where
      v : ℕ
      v = hasher (get_or nodes (2 * r + 1) 0) (get_or nodes (2 * r + 2) 0)

      written : hash_pair hasher index nodes ≡ set nodes r v
      written = hash_pair-eq-set r index nodes e

      stays : (j : ℕ) → r < j → get_or after j 0 ≡ get_or nodes j 0
      stays j lt =
          rest.kept j (omega arith)
          ∙ ap (λ (xs : List ℕ). get_or xs j 0) written
          ∙ get_or-set_ne nodes r j v 0 (λ e'. omega arith)

  hash_nodes-Hashed :
      (r index : ℕ) (nodes : List ℕ)
      → index ≡ 2 * r
      → 2 * r < length nodes
      → Hashed r nodes (hash_nodes hasher r index nodes)
  unfolding hash_nodes
  hash_nodes-Hashed zero index nodes e h = record {
    heap = λ j lt. absurd (omega arith);
    kept = λ j _. refl;
    size = refl;
  }
  hash_nodes-Hashed (suc r) index nodes e h =
      Hashed-step r index nodes (hash_nodes hasher r (index - 2) (hash_pair hasher index nodes)) e h
        (hash_nodes-Hashed r (index - 2) (hash_pair hasher index nodes) (omega arith) (
          omega (
            arith,
            ap length (hash_pair-eq-set r index nodes e)
                ∙ length-set nodes r
                    (hasher (get_or nodes (2 * r + 1) 0) (get_or nodes (2 * r + 2) 0)),
          )))

  -- The top of a heap is the root over its last level.
  top-root_of :
      (height : ℕ) (nodes : List ℕ) (f : ℕ → ℕ)
      → IsHeap (2 ^ height - 1) nodes
      → ((i : ℕ) → i < 2 ^ height → get_or nodes (2 ^ height - 1 + i) 0 ≡ f i)
      → get_or nodes 0 0 ≡ root_of hasher height f
  unfolding root_of
  top-root_of zero nodes f heap leaves = leaves 0 (omega arith)
  top-root_of (suc height) nodes f heap leaves =
      let wide : 2 ^ suc height ≡ 2 ^ height * 2 = pow-suc 2 height in
      let some_leaf : 1 ≤ 2 ^ height = one-le-pow height 2 (omega arith) in
      top-root_of height nodes (level_up hasher f) (λ j lt. heap j (omega arith))
        (λ i lt.
          heap (2 ^ height - 1 + i) (omega arith)
          ∙ ap₂ hasher
              (ap (λ (j : ℕ). get_or nodes j 0) (omega arith) ∙ leaves (2 * i) (omega arith))
              (ap (λ (j : ℕ). get_or nodes j 0) (omega arith) ∙ leaves (2 * i + 1) (omega arith)))

  -- What a complete tree is: a heap of the right size, with the leaves on its last level, padded
  -- with zeros, and their Merkle root on top.
  pub record IsCompleteTree (height : ℕ) (leaves nodes : List ℕ) : Type 0 where
    pub size : length nodes ≡ 2 ^ (height + 1) - 1
    pub heap : IsHeap (2 ^ height - 1) nodes
    pub last_level :
        (i : ℕ) → i < 2 ^ height → get_or nodes (2 ^ height - 1 + i) 0 ≡ leaf_at leaves i
    pub top : get_or nodes 0 0 ≡ root_of hasher height (leaf_at leaves)

  Hashed-IsCompleteTree :
      (height : ℕ) (leaves after : List ℕ)
      → length leaves ≤ 2 ^ height
      → Hashed
          (2 ^ height - 1)
          (replicate (2 ^ height - 1) 0 ++ (leaves ++ replicate (2 ^ height - length leaves) 0))
          after
      → IsCompleteTree height leaves after
  Hashed-IsCompleteTree height leaves after fits h = record {
    size =
        h.size
        ∙ omega (
          arith,
          length-append (replicate {A = ℕ} (2 ^ height - 1) 0)
              (leaves ++ replicate (2 ^ height - length leaves) 0),
          length-append leaves (replicate (2 ^ height - length leaves) 0),
          length-replicate {A = ℕ} (2 ^ height - 1) 0,
          length-replicate {A = ℕ} (2 ^ height - length leaves) 0,
          pow-suc 2 height,
          ap (λ (t : ℕ). 2 ^ t) (add-one height),
          one-le-pow height 2 (omega arith),
        );
    heap = h.heap;
    last_level = bottom;
    top = top-root_of height after (leaf_at leaves) h.heap bottom;
  }
    where
      bottom : (i : ℕ) → i < 2 ^ height → get_or after (2 ^ height - 1 + i) 0 ≡ leaf_at leaves i
      bottom i lt =
          h.kept (2 ^ height - 1 + i) (omega arith)
          ∙ get_or-replicate_append (2 ^ height - 1) i 0 0
              (leaves ++ replicate (2 ^ height - length leaves) 0)
          ∙ get_or-append_replicate leaves (2 ^ height - length leaves) i 0

  -- From at most as many leaves as fit, `make_complete_tree` returns an array of the tree's size:
  -- its last level is the leaves with zeros after them, every other node is the hash of its two
  -- children, and the first is the Merkle root.
  pub make_complete_tree-IsCompleteTree :
      (height : ℕ) (leaves : List ℕ)
      → length leaves ≤ 2 ^ height
      → (nodes : List ℕ) × (make_complete_tree height hasher leaves ≡ some nodes)
        × IsCompleteTree height leaves nodes
  unfolding make_complete_tree
  make_complete_tree-IsCompleteTree height leaves fits =
      let wide : 2 ^ (height + 1) ≡ 2 ^ height * 2 =
        ap (λ (t : ℕ). 2 ^ t) (add-one height) ∙ pow-suc 2 height in
      let positive : 1 ≤ 2 ^ height = one-le-pow height 2 (omega arith) in
      let first : 2 ^ (height + 1) - 1 - 2 ^ height ≡ 2 ^ height - 1 = omega arith in
      let rounds : (2 ^ (height + 1) - 1) / 2 ≡ 2 ^ height - 1 = omega arith in
      let index : 2 ^ (height + 1) - 1 - 1 ≡ 2 * (2 ^ height - 1) = omega arith in
      let base : List ℕ =
        replicate (2 ^ height - 1) 0 ++ (leaves ++ replicate (2 ^ height - length leaves) 0) in
      (
        hash_nodes hasher (2 ^ height - 1) (2 * (2 ^ height - 1)) base,
        rw (ltb-false _ _ fits, first, rounds, index),
        Hashed-IsCompleteTree height leaves _ fits (
            hash_nodes-Hashed (2 ^ height - 1) (2 * (2 ^ height - 1)) base refl (
              omega (
                arith,
                length-append (replicate {A = ℕ} (2 ^ height - 1) 0)
                    (leaves ++ replicate (2 ^ height - length leaves) 0),
                length-append leaves (replicate (2 ^ height - length leaves) 0),
                length-replicate {A = ℕ} (2 ^ height - 1) 0,
                length-replicate {A = ℕ} (2 ^ height - length leaves) 0,
              ))),
      )
