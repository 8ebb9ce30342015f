-- ===== src/Trees/Mutable/Heap.antt =====
-- The nodes of a tree as a heap: every node above the last level is the hash of its children. The
-- loop up from a node, and the rows of a sub tree, keep it.
use nightfall_4_ce.Common.{
  ℕ, zero, suc, ◌+◌, ◌-◌, ◌*◌, ◌/◌, ◌%◌, ◌^◌, ◌≤◌, ◌<◌, ◌≡◌, ◌≢◌, refl, sym, ap, ◌∙◌, arith, List,
  ◌∷◌, ◌==◌, inl, inr, Bool-cases, ==→≡,
}
use mathlib.Core.Path.{ap₂}
use native.Mathlib.Nat.{pow-suc, one-le-pow}
use native.Mathlib.Decide.{ℕ_discrete, dec_lt}
use nightfall_4_ce.Trees.Root.{level_up, root_of}
use nightfall_4_ce.Trees.Mutable.Store.{Node}
use nightfall_4_ce.Trees.Mutable.Defs.{hash_up, path_updates}
use nightfall_4_ce.Trees.Mutable.Overlay.{put, overlay, put_self, put-other}

module _ (hasher : ℕ → ℕ → ℕ) where
  -- The nodes before `m` are the hashes of their children.
  abbrev pub IsHeapUpTo : ℕ → (ℕ → ℕ) → Type 0
  IsHeapUpTo m g = (j : ℕ) → j < m → g j ≡ hasher (g (2 * j + 1)) (g (2 * j + 2))

  -- The first node of a heap is the Merkle root of its last level.
  pub heap-root_of :
      (height : ℕ) (g f : ℕ → ℕ)
      → IsHeapUpTo (2 ^ height - 1) g
      → ((i : ℕ) → i < 2 ^ height → g (2 ^ height - 1 + i) ≡ f i)
      → g 0 ≡ root_of hasher height f
  unfolding root_of
  heap-root_of zero g f heap leaves = leaves 0 (omega arith)
  heap-root_of (suc height) g f heap leaves =
      let wide : 2 ^ suc height ≡ 2 ^ height * 2 = pow-suc 2 height in
      let some_leaf : 1 ≤ 2 ^ height = one-le-pow height 2 (omega arith) in
      heap-root_of height g (level_up hasher f) (λ j lt. heap j (omega arith))
        (λ i lt.
          heap (2 ^ height - 1 + i) (omega arith)
          ∙ ap₂ hasher (ap g (omega arith) ∙ leaves (2 * i) (omega arith))
              (ap g (omega arith) ∙ leaves (2 * i + 1) (omega arith)))

  -- What the writes on the path up from the node `index`, of the level from `first`, make of the
  -- nodes `g`.
  pub record IsPlaced (first index v root : ℕ) (g g' : ℕ → ℕ) : Type 0 where
    pub heap : IsHeapUpTo first g'
    pub here : g' index ≡ v
    pub others : (j : ℕ) → first ≤ j → j ≢ index → g' j ≡ g j
    pub top : g' 0 ≡ root

  -- The writes of a node and of all above it.
  unfoldable pub path_writes : (ℕ → ℕ) → ℕ → ℕ → ℕ → List Node
  path_writes get rounds index v =
      record { value = v; id = index } ∷ (path_updates hasher get rounds index v).0

  -- A parent's hash, from the nodes after the write of its child.
  hash_up-children :
      (get g : ℕ → ℕ) (index v : ℕ)
      → 0 < index
      → (index % 2 ≡ 0 → get (index - 1) ≡ g (index - 1))
      → (index % 2 ≡ 1 → get (index + 1) ≡ g (index + 1))
      → hash_up hasher get index v
        ≡ hasher
            (put index v g (2 * ((index - 1) / 2) + 1))
            (put index v g (2 * ((index - 1) / 2) + 2))
  unfolding hash_up
  hash_up-children get g index v pos left right = elim (Bool-cases (index % 2 == 0)) [
    | inl even ↦
        let two : index % 2 ≡ 0 = ==→≡ _ _ even in
        let l : 2 * ((index - 1) / 2) + 1 ≡ index - 1 = omega arith in
        let r : 2 * ((index - 1) / 2) + 2 ≡ index = omega arith in
        rw
          (
            even,
            l,
            r,
            put_self index v g,
            put-other index v (index - 1) g (λ e. omega arith),
            left two,
          )
          refl
    | inr odd ↦
        let one : index % 2 ≡ 1 = ground arith in
        let l : 2 * ((index - 1) / 2) + 1 ≡ index = omega arith in
        let r : 2 * ((index - 1) / 2) + 2 ≡ index + 1 = omega arith in
        rw
          (
            odd,
            l,
            r,
            put_self index v g,
            put-other index v (index + 1) g (λ e. omega arith),
            right one,
          )
          refl
  ]

  -- One level more: the parent of the written node is placed after it.
  IsPlaced-step :
      (first index v above root : ℕ) (g g' : ℕ → ℕ)
      → 2 * first + 1 ≤ index
      → index < 4 * first + 3
      → IsHeapUpTo (2 * first + 1) g
      → above
        ≡ hasher
            (put index v g (2 * ((index - 1) / 2) + 1))
            (put index v g (2 * ((index - 1) / 2) + 2))
      → IsPlaced first ((index - 1) / 2) above root (put index v g) g'
      → IsPlaced (2 * first + 1) index v root g g'
  IsPlaced-step first index v above root g g' le lt' heap hashed rest = record {
    heap = λ j lt. elim (dec_lt j first) [
      | yes below ↦ rest.heap j below
      | no beyond ↦ elim (ℕ_discrete j parent) [
        | yes same ↦ rw same (rest.here ∙ hashed ∙ sym (children parent (omega arith)))
        | no other ↦
            rest.others j (omega arith) other
            ∙ put-other index v j g (λ e. omega arith)
            ∙ heap j lt
            ∙ sym (
                ap₂ hasher (put-other index v (2 * j + 1) g (λ e. other (omega arith)))
                  (put-other index v (2 * j + 2) g (λ e. other (omega arith))))
            ∙ sym (children j (omega arith))
      ]
    ];
    here = rest.others index (omega arith) (λ e. omega arith) ∙ put_self index v g;
    others = λ j le' ne.
        rest.others j (omega arith) (λ e. omega arith) ∙ put-other index v j g (λ e. ne (sym e));
    top = rest.top;
  }
    where
      parent : ℕ
      parent = (index - 1) / 2

      children :
          (j : ℕ)
          → first ≤ j
          → hasher (g' (2 * j + 1)) (g' (2 * j + 2))
            ≡ hasher (put index v g (2 * j + 1)) (put index v g (2 * j + 2))
      children j le' =
          ap₂ hasher (rest.others (2 * j + 1) (omega arith) (λ e. omega arith))
            (rest.others (2 * j + 2) (omega arith) (λ e. omega arith))

  -- From a node of the level `rounds`, the loop up makes a heap whose root is the hash that it ends
  -- with. It reads the nodes as they were before it, but for the node that it starts from.
  pub path_writes-IsPlaced :
      (get g : ℕ → ℕ) (rounds index v : ℕ)
      → 2 ^ rounds ≤ index + 1
      → index + 1 < 2 * 2 ^ rounds
      → ((j : ℕ) → j + 1 < 2 * 2 ^ rounds → j ≢ index → get j ≡ g j)
      → IsHeapUpTo (2 ^ rounds - 1) g
      → IsPlaced
          (2 ^ rounds - 1)
          index
          v
          (path_updates hasher get rounds index v).1
          g
          (overlay (path_writes get rounds index v) g)
  unfolding path_updates overlay path_writes
  path_writes-IsPlaced get g zero index v low high same heap = record {
    heap = λ j lt. absurd (omega arith);
    here = put_self index v g;
    others = λ j le ne. put-other index v j g (λ e. ne (sym e));
    top = ap (put index v g) (omega arith) ∙ put_self index v g;
  }
  path_writes-IsPlaced get g (suc rounds) index v low high same heap =
      let wide : 2 ^ suc rounds ≡ 2 ^ rounds * 2 = pow-suc 2 rounds in
      let some_leaf : 1 ≤ 2 ^ rounds = one-le-pow rounds 2 (omega arith) in
      let first : 2 ^ suc rounds - 1 ≡ 2 * (2 ^ rounds - 1) + 1 = omega arith in
      rw first (
        IsPlaced-step (2 ^ rounds - 1) index v (hash_up hasher get index v) _ g _ (omega arith)
          (omega arith) (rw (sym first) heap)
          (hash_up-children get g index v (omega arith)
            (λ even. same (index - 1) (omega arith) (λ e. omega arith))
            (λ odd. same (index + 1) (omega arith) (λ e. omega arith)))
          (path_writes-IsPlaced get (put index v g) rounds ((index - 1) / 2)
            (hash_up hasher get index v) (omega arith) (omega arith)
            (λ j lt ne.
              same j (omega arith) (λ e. omega arith)
              ∙ sym (put-other index v j g (λ e. omega arith)))
            (λ j lt.
              put-other index v j g (λ e. omega arith)
              ∙ heap j (omega arith)
              ∙ sym (
                  ap₂ hasher (put-other index v (2 * j + 1) g (λ e. omega arith))
                    (put-other index v (2 * j + 2) g (λ e. omega arith))))))
