-- ===== src/Trees/Indexed/Chain.antt =====
-- Collections of leaves, as `lib/src/merkle_trees/indexed.rs` stores them, that are linked lists in the
-- order of their values.
use nightfall_4_ce.Common.{ℕ, ◌≤◌, ◌<◌, ◌≡◌, ◌≢◌, sym, ◌⊎◌, inl, inr, arith, none, some}
use native.Mathlib.Decide.{dec_lt, ℕ_discrete}
use nightfall_4_ce.Trees.Indexed.Defs.{IndexedLeaf, Leaves, get_low_leaf}
use nightfall_4_ce.Trees.Indexed.Lookup.{lookup, IsLowLeaf, no-low_leaf}

-- The last leaf links to nothing, and any other to the leaf with the next value.
pub data IsLinked (ls : Leaves) (l : IndexedLeaf) : Type 0 where
  is_last :
      l.next_value ≡ 0
      → l.next_index ≡ 0
      → ((w : ℕ) (m : IndexedLeaf) → lookup w ls ≡ some m → w ≤ l.value)
      → IsLinked ls l
  is_before :
      (n : IndexedLeaf)
      → lookup l.next_value ls ≡ some n
      → l.value < l.next_value
      → l.next_index ≡ n.id
      → ((w : ℕ) (m : IndexedLeaf) → lookup w ls ≡ some m → (w ≤ l.value) ⊎ (l.next_value ≤ w))
      → IsLinked ls l

-- The collection of a tree: the zero leaf is stored, and every stored leaf is linked.
pub record IsChain (ls : Leaves) : Type 0 where
  pub zero_leaf : (l : IndexedLeaf) × (lookup 0 ls ≡ some l)
  pub linked : (w : ℕ) (l : IndexedLeaf) → lookup w ls ≡ some l → IsLinked ls l

pub absent_ne :
    (v w : ℕ) (m : IndexedLeaf) (ls : Leaves) → lookup v ls ≡ none → lookup w ls ≡ some m → w ≢ v
absent_ne v w m ls absent s e = cc

pub next_above :
    (v : ℕ) (ls : Leaves) (low : IndexedLeaf)
    → lookup v ls ≡ none
    → IsLowLeaf v ls low
    → IsLinked ls low
    → (low.next_value ≡ 0) ⊎ (v < low.next_value)
next_above v ls low absent is_low (is_last e _ _) = inl e
next_above v ls low absent is_low (is_before n s lt _ _) = elim (dec_lt v low.next_value) [
  | yes above ↦ inr above
  | no not_above ↦ elim (ℕ_discrete low.next_value v) [
    | yes same ↦ absurd (absent_ne v low.next_value n ls absent s same)
    | no other ↦ absurd (omega (arith, is_low.highest low.next_value s (omega arith)))
  ]
]

pub chain_has_low :
    (v : ℕ) (ls : Leaves) → IsChain ls → lookup v ls ≡ none → get_low_leaf v ls ≡ none → ⊥
chain_has_low v ls chain absent gone =
    let (l, at_zero) = chain.zero_leaf in
    let zero_is : v ≡ 0 = omega (arith, no-low_leaf v ls gone 0 l at_zero) in
    absent_ne v 0 l ls absent at_zero (sym zero_is)
