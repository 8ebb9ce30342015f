-- ===== src/Trees/Indexed/Laws.antt =====
-- The stored leaves are a linked list in the order of their values, and storing keeps it so:
-- `impl IndexedLeaves` of `lib/src/merkle_trees/indexed.rs`.
use nightfall_4_ce.Common.{
  ℕ, ◌<◌, ◌≡◌, refl, ◌⊎◌, inl, inr, arith, false, [], ◌∷◌, Option, none, some, Option-cases, ok,
  err,
}
use nightfall_4_ce.Trees.Types.{leaf_exists}
use nightfall_4_ce.Trees.Indexed.Defs.{
  IndexedLeaf, Leaves, default_leaf, get_leaf, get_low_leaf, has_id, insert_one,
  new_indexed_leaves_db, store_after, store_leaf,
}
use nightfall_4_ce.Trees.Indexed.Lookup.{lookup, get_low_leaf-IsLowLeaf}
use nightfall_4_ce.Trees.Indexed.Chain.{is_last, IsChain, next_above, chain_has_low}
use nightfall_4_ce.Trees.Indexed.Links.{
  new_leaf, stored_leaves, at_new, stored_before, kept_before, stored_leaves-IsChain,
}

pub zero_leaf-IsChain : IsChain (default_leaf ∷ [])
unfolding get_leaf
zero_leaf-IsChain = record {
  zero_leaf = (default_leaf, refl);
  linked = λ w l e. is_last (ground arith) (ground arith) (λ k m e'. ground arith);
}

-- A new collection holds the zero leaf alone, and is linked.
pub new_indexed_leaves_db-IsChain : (ls : Leaves) × (new_indexed_leaves_db [] ≡ ok ls) × IsChain ls
unfolding new_indexed_leaves_db get_leaf
new_indexed_leaves_db-IsChain = (default_leaf ∷ [], refl, zero_leaf-IsChain)

-- In a linked collection a value that is not stored has a low leaf below it, whose next value, if
-- it has one, is above it: what a proof of non-membership shows.
pub get_low_leaf_gap :
    (v : ℕ) (ls : Leaves)
    → IsChain ls
    → lookup v ls ≡ none
    → (low : IndexedLeaf) × (get_low_leaf v ls ≡ some low)
      × (low.value < v)
      × ((low.next_value ≡ 0) ⊎ (v < low.next_value))
get_low_leaf_gap v ls chain absent = elim (Option-cases (get_low_leaf v ls)) [
  | inl gone ↦ absurd (chain_has_low v ls chain absent gone)
  | inr (low, found) ↦
      let is_low = get_low_leaf-IsLowLeaf v ls found in
      (
        low,
        found,
        is_low.below,
        next_above v ls low absent is_low (chain.linked low.value low is_low.stored),
      )
]

-- A value that is stored already is refused, in any collection.
pub store_leaf_duplicate :
    (v : ℕ) (index : Option ℕ) (ls : Leaves) (l : IndexedLeaf)
    → lookup v ls ≡ some l
    → store_leaf v index ls ≡ err leaf_exists
unfolding store_leaf
store_leaf_duplicate v index ls l e = rw (e, store_leaf)

-- What a call that stores a value at an index leaves behind.
pub record Stores (v i : ℕ) (ls ls' : Leaves) : Type 0 where
  pub chain : IsChain ls'
  pub stored : (l : IndexedLeaf) × (lookup v ls' ≡ some l) × (l.id ≡ i)
  pub kept :
      (w : ℕ) (m : IndexedLeaf)
      → lookup w ls ≡ some m
      → (m' : IndexedLeaf) × (lookup w ls' ≡ some m') × (m'.id ≡ m.id)
  pub only :
      (w : ℕ) (m : IndexedLeaf)
      → lookup w ls' ≡ some m
      → (w ≡ v) ⊎ ((m' : IndexedLeaf) × (lookup w ls ≡ some m'))

-- In a linked collection a new value with a free index is stored: the collection stays linked, holds
-- the value at that index, and all that was stored, at its old index, and nothing else.
pub store_leaf-Stores :
    (v i : ℕ) (ls : Leaves)
    → IsChain ls
    → lookup v ls ≡ none
    → has_id i ls ≡ false
    → (ls' : Leaves) × (store_leaf v (some i) ls ≡ ok ls') × Stores v i ls ls'
unfolding store_leaf
store_leaf-Stores v i ls chain absent free = elim (Option-cases (get_low_leaf v ls)) [
  | inl gone ↦ absurd (chain_has_low v ls chain absent gone)
  | inr (low, found) ↦
      let is_low = get_low_leaf-IsLowLeaf v ls found in
      (
        stored_leaves ls v i low chain absent is_low,
        rw (absent, store_leaf, found, store_after, insert_one, free),
        record {
          chain = stored_leaves-IsChain ls v i low chain absent is_low;
          stored = (
            new_leaf ls v i low chain absent is_low,
            at_new ls v i low chain absent is_low,
            refl,
          );
          kept = kept_before ls v i low chain absent is_low;
          only = stored_before ls v i low chain absent is_low;
        },
      )
]
