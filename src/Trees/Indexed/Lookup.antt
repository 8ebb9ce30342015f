-- ===== src/Trees/Indexed/Lookup.antt =====
-- How a look-up by value reads the collection after each operation on it.
use nightfall_4_ce.Common.{
  ℕ, ◌≤◌, ◌<◌, ◌≡◌, refl, inl, inr, arith, [], ◌∷◌, ◌++◌, Option, none, some, ◌==◌, if◌then◌else◌,
  Option-cases,
}
use nightfall_4_ce.Trees.Indexed.Defs.{IndexedLeaf, Leaves, get_leaf, get_low_leaf, update_leaf}

-- `get_leaf` by value alone.
abbrev pub lookup : ℕ → Leaves → Option IndexedLeaf
lookup v ls = get_leaf (some v) none ls

pub lookup-value : (v : ℕ) (ls : Leaves) {l : IndexedLeaf} → lookup v ls ≡ some l → l.value ≡ v
unfolding get_leaf
lookup-value v [] e = cc
lookup-value v (m ∷ ls) {l} e = ground (arith, lookup-value v ls {l = l})

pub lookup-append :
    (w : ℕ) (n : IndexedLeaf) (ls : Leaves)
    → lookup n.value ls ≡ none
    → lookup w (ls ++ n ∷ []) ≡ (if n.value == w then some n else lookup w ls)
unfolding get_leaf
lookup-append w n [] e = refl
lookup-append w n (l ∷ ls) e = ground (arith, lookup-append w n ls)

abbrev pub relink : ℕ → ℕ → Option IndexedLeaf → Option IndexedLeaf
relink index next none = none
relink index next (some l) = some (record l { next_index = index; next_value = next })

pub lookup-update_leaf :
    (w v index next : ℕ) (ls : Leaves)
    → lookup w (update_leaf v index next ls)
      ≡ (if v == w then relink index next (lookup w ls) else lookup w ls)
unfolding get_leaf update_leaf
lookup-update_leaf w v index next [] = ground arith
lookup-update_leaf w v index next (l ∷ ls) = ground (arith, lookup-update_leaf w v index next ls)

-- The low leaf is stored, lies below, and no stored value lies between.
pub record IsLowLeaf (v : ℕ) (ls : Leaves) (low : IndexedLeaf) : Type 0 where
  pub stored : lookup low.value ls ≡ some low
  pub below : low.value < v
  pub highest : (w : ℕ) {m : IndexedLeaf} → lookup w ls ≡ some m → w < v → w ≤ low.value

pub no-low_leaf :
    (v : ℕ) (ls : Leaves)
    → get_low_leaf v ls ≡ none
    → (w : ℕ) (m : IndexedLeaf) → lookup w ls ≡ some m
    → v ≤ w
unfolding get_leaf get_low_leaf
no-low_leaf v [] e w m s = cc
no-low_leaf v (l ∷ ls) e w m s = elim (Option-cases (get_low_leaf v ls)) [
  | inl gone ↦ ground (arith, no-low_leaf v ls gone w m)
  | inr (low, found) ↦ ground arith
]

low-below : (v : ℕ) (ls : Leaves) (low : IndexedLeaf) → get_low_leaf v ls ≡ some low → low.value < v
unfolding get_low_leaf
low-below v [] low e = cc
low-below v (l ∷ ls) low e = elim (Option-cases (get_low_leaf v ls)) [
  | inl gone ↦ ground arith
  | inr (m, found) ↦ ground (arith, low-below v ls m found)
]

low-stored :
    (v : ℕ) (ls : Leaves) (low : IndexedLeaf)
    → get_low_leaf v ls ≡ some low
    → lookup low.value ls ≡ some low
unfolding get_leaf get_low_leaf
low-stored v [] low e = cc
low-stored v (l ∷ ls) low e = elim (Option-cases (get_low_leaf v ls)) [
  | inl gone ↦ ground arith
  | inr (m, found) ↦ ground (arith, low-below v ls m found, low-stored v ls m found)
]

low-highest :
    (v : ℕ) (ls : Leaves) (low : IndexedLeaf)
    → get_low_leaf v ls ≡ some low
    → (w : ℕ) (m : IndexedLeaf) → lookup w ls ≡ some m
    → w < v
    → w ≤ low.value
unfolding get_leaf get_low_leaf
low-highest v [] low e w m s lt = cc
low-highest v (l ∷ ls) low e w m s lt = elim (Option-cases (get_low_leaf v ls)) [
  | inl gone ↦ ground (arith, no-low_leaf v ls gone w m)
  | inr (k, found) ↦ ground (arith, low-highest v ls k found w m)
]

pub get_low_leaf-IsLowLeaf :
    (v : ℕ) (ls : Leaves) {low : IndexedLeaf} → get_low_leaf v ls ≡ some low → IsLowLeaf v ls low
get_low_leaf-IsLowLeaf v ls {low} e = record {
  stored = low-stored v ls low e;
  below = low-below v ls low e;
  highest = λ w {m} s lt. low-highest v ls low e w m s lt;
}
