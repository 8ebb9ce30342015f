-- ===== src/Trees/Indexed/Links.antt =====
-- The links after a leaf is stored behind its low leaf, `store_leaf` of
-- `lib/src/merkle_trees/indexed.rs`.
use nightfall_4_ce.Common.{
  ℕ, ◌≤◌, ◌<◌, ◌≡◌, ◌≢◌, refl, sym, ◌∙◌, ap, ◌⊎◌, inl, inr, arith, [], ◌∷◌, ◌++◌, none, some, ◌==◌,
  if◌then◌else◌, ==_self, ==_false,
}
use mathlib.Core.Path.{subst}
use native.Mathlib.Decide.{dec_lt, ℕ_discrete}
use nightfall_4_ce.Trees.Indexed.Defs.{IndexedLeaf, Leaves, update_leaf}
use nightfall_4_ce.Trees.Indexed.Lookup.{
  lookup, lookup-value, lookup-append, relink, lookup-update_leaf, IsLowLeaf,
}
use nightfall_4_ce.Trees.Indexed.Chain.{
  IsLinked, is_last, is_before, IsChain, absent_ne, next_above,
}

-- A value is stored between its low leaf and the next one.
module _ (ls : Leaves) (v i : ℕ) (low : IndexedLeaf) (chain : IsChain ls)
    (absent : lookup v ls ≡ none) (is_low : IsLowLeaf v ls low) where
  same_leaf :
      (w k : ℕ) (n : IndexedLeaf) → lookup w ls ≡ some n → w ≡ k → lookup k ls ≡ some low → n ≡ low
  same_leaf w k n s e t = cc

  abbrev pub new_leaf : IndexedLeaf
  new_leaf = record { value = v; id = i; next_index = low.next_index; next_value = low.next_value }

  abbrev pub stored_leaves : Leaves
  stored_leaves = update_leaf low.value i v (ls ++ new_leaf ∷ [])

  lookup-stored :
      (w : ℕ)
      → lookup w stored_leaves ≡ (
          if low.value == w
          then relink i v (if v == w then some new_leaf else lookup w ls)
          else (if v == w then some new_leaf else lookup w ls))
  lookup-stored w =
      lookup-update_leaf w low.value i v (ls ++ new_leaf ∷ [])
      ∙ rw (lookup-append w new_leaf ls absent)

  at_low : lookup low.value stored_leaves ≡ some (record low { next_index = i; next_value = v })
  at_low =
      lookup-stored low.value
      ∙ rw (
        ==_self low.value,
        ==_false v low.value (λ e. omega (arith, is_low.below)),
        is_low.stored,
      )

  pub at_new : lookup v stored_leaves ≡ some new_leaf
  at_new = lookup-stored v ∙ rw (==_self v, ==_false low.value v (λ e. omega (arith, is_low.below)))

  at_other : (w : ℕ) → w ≢ low.value → w ≢ v → lookup w stored_leaves ≡ lookup w ls
  at_other w not_low not_new =
      lookup-stored w
      ∙ rw (==_false low.value w (λ e. not_low (sym e)), ==_false v w (λ e. not_new (sym e)))

  -- What is stored afterwards is the new value or was stored before.
  pub stored_before :
      (w : ℕ) (m : IndexedLeaf)
      → lookup w stored_leaves ≡ some m
      → (w ≡ v) ⊎ ((m' : IndexedLeaf) × (lookup w ls ≡ some m'))
  stored_before w m e = elim (ℕ_discrete w v) [
    | yes new ↦ inl new
    | no old ↦ elim (ℕ_discrete w low.value) [
      | yes at ↦ inr (low, rw at is_low.stored)
      | no other ↦ inr (m, sym (at_other w other old) ∙ e)
    ]
  ]

  pub kept_before :
      (w : ℕ) (m : IndexedLeaf)
      → lookup w ls ≡ some m
      → (m' : IndexedLeaf) × (lookup w stored_leaves ≡ some m') × (m'.id ≡ m.id)
  kept_before w m e = elim (ℕ_discrete w low.value) [
    | yes at ↦ (
      record low { next_index = i; next_value = v },
      ap (λ (k : ℕ). lookup k stored_leaves) at ∙ at_low,
      ap (λ (k : IndexedLeaf). k.id) (sym (same_leaf w low.value m e at is_low.stored)),
    )
    | no other ↦ (m, at_other w other (absent_ne v w m ls absent e) ∙ e, refl)
  ]

  -- No value that was stored lies between the low leaf and the new value.
  clear_below : (w : ℕ) (m : IndexedLeaf) → lookup w ls ≡ some m → (w ≤ low.value) ⊎ (v ≤ w)
  clear_below w m e = elim (dec_lt w v) [
    | yes below ↦ inl (is_low.highest w e below)
    | no above ↦ inr (omega arith)
  ]

  low-IsLinked : IsLinked stored_leaves (record low { next_index = i; next_value = v })
  low-IsLinked = is_before new_leaf at_new is_low.below refl (λ w m e. elim (stored_before w m e) [
    | inl new ↦ inr (omega arith)
    | inr (m', old) ↦ clear_below w m' old
  ])

  next_lies_above :
      (n : IndexedLeaf)
      → lookup low.next_value ls ≡ some n
      → low.value < low.next_value
      → v < low.next_value
  next_lies_above n s lt =
      elim (next_above v ls low absent is_low (chain.linked low.value low is_low.stored)) [
        | inl none_after ↦ absurd (omega arith)
        | inr above ↦ above
      ]

  new_before_last :
      (l : IndexedLeaf)
      → lookup l.value ls ≡ some l
      → l.value ≢ low.value
      → low.value ≤ l.value
      → v ≤ l.value
  new_before_last l at not_low low_first = elim (clear_below l.value l at) [
    | inl below ↦ absurd (not_low (omega arith))
    | inr above ↦ above
  ]

  new-IsLinked : IsLinked ls low → IsLinked stored_leaves new_leaf
  new-IsLinked (is_last next index all) = is_last next index (λ w m e. elim (stored_before w m e) [
    | inl new ↦ omega arith
    | inr (m', old) ↦ omega (arith, all w m' old, is_low.below)
  ])
  new-IsLinked (is_before n s lt index between) =
      is_before n
        (at_other low.next_value (λ e. omega arith) (absent_ne v low.next_value n ls absent s) ∙ s)
        (next_lies_above n s lt) index
        (λ w m e. elim (stored_before w m e) [
          | inl new ↦ inl (omega arith)
          | inr (m', old) ↦ elim (between w m' old) [
            | inl below ↦ inl (omega (arith, is_low.below))
            | inr above ↦ inr above
          ]
        ])

  other-IsLinked :
      (l : IndexedLeaf)
      → lookup l.value ls ≡ some l
      → l.value ≢ low.value
      → IsLinked ls l
      → IsLinked stored_leaves l
  other-IsLinked l at not_low (is_last next index all) = is_last next index (λ w m e.
      elim (stored_before w m e) [
        | inl new ↦ rw new (new_before_last l at not_low (all low.value low is_low.stored))
        | inr (m', old) ↦ all w m' old
      ])
  other-IsLinked l at not_low (is_before n s lt index between) =
      elim (ℕ_discrete l.next_value low.value) [
        | yes same ↦
            is_before (record low { next_index = i; next_value = v }) (rw same at_low) lt
              (index
                ∙ ap (λ (k : IndexedLeaf). k.id)
                    (same_leaf l.next_value low.value n s same is_low.stored))
              after
        | no other ↦
            is_before n (at_other l.next_value other (absent_ne v l.next_value n ls absent s) ∙ s)
              lt index after
      ]
    where
      after :
          (w : ℕ) (m : IndexedLeaf)
          → lookup w stored_leaves ≡ some m
          → (w ≤ l.value) ⊎ (l.next_value ≤ w)
      after w m e = elim (stored_before w m e) [
        | inl new ↦ elim (between low.value low is_low.stored) [
          | inl low_first ↦ inl (rw new (new_before_last l at not_low low_first))
          | inr low_after ↦ inr (omega (arith, is_low.below))
        ]
        | inr (m', old) ↦ between w m' old
      ]

  all-IsLinked :
      (w : ℕ) (l : IndexedLeaf) → lookup w stored_leaves ≡ some l → IsLinked stored_leaves l
  all-IsLinked w l e = elim (ℕ_discrete w low.value) [
    | yes at ↦
        let same : l ≡ record low { next_index = i; next_value = v } = cc at_low in
        rw same low-IsLinked
    | no not_low ↦ elim (ℕ_discrete w v) [
      | yes at ↦
          let same : l ≡ new_leaf = cc at_new in
          rw same (new-IsLinked (chain.linked low.value low is_low.stored))
      | no not_new ↦
          let old : lookup w ls ≡ some l = sym (at_other w not_low not_new) ∙ e in
          let name : l.value ≡ w = lookup-value w ls old in
          other-IsLinked l (subst (λ (k : ℕ). lookup k ls ≡ some l) (sym name) old)
            (λ same. not_low (sym name ∙ same)) (chain.linked w l old)
    ]
  ]

  pub stored_leaves-IsChain : IsChain stored_leaves
  stored_leaves-IsChain = record {
    zero_leaf = elim (ℕ_discrete 0 low.value) [
      | yes at ↦ (
        record low { next_index = i; next_value = v },
        ap (λ (k : ℕ). lookup k stored_leaves) at ∙ at_low,
      )
      | no not_low ↦
          let (l, e) = chain.zero_leaf in (l, at_other 0 not_low (absent_ne v 0 l ls absent e) ∙ e)
    ];
    linked = all-IsLinked;
  }
