-- ===== src/Trees/Mutable/Leaf.antt =====
-- What `is_leaf` of `impl MutableTree` in `lib/src/merkle_trees/mutable.rs` answers.
use nightfall_4_ce.Common.{
  ℕ, ◌+◌, ◌-◌, ◌^◌, ◌≤◌, ◌≡◌, ◌⊎◌, refl, sym, ap, Option, ◌∙◌, inl, inr, Bool, true, false, ◌&&◌,
  leb, leb→le, leb-true, none, some, ok, err, Bool-cases, Option-cases,
}
use nightfall_4_ce.Trees.Types.{TreeMetadata, Failure, error, tree_not_found}
use nightfall_4_ce.Trees.Mutable.Store.{MutableStore, find_value, is_leaf}

-- The first stored node with the value is on the last level of the tree.
abbrev pub IsLeaf : ℕ → MutableStore → Type 0
IsLeaf value s =
    (m : TreeMetadata) × (i : ℕ) × (s.metadata ≡ some m)
    × (find_value value s.nodes ≡ some i)
    × (2 ^ (m.tree_height + m.sub_tree_height) - 1 ≤ i)
    × (i ≤ 2 ^ (m.tree_height + m.sub_tree_height + 1) - 2)

and-left : (a b : Bool) → a && b ≡ true → a ≡ true
and-left true b h = refl
and-left false b h = cc

and-right : (a b : Bool) → a && b ≡ true → b ≡ true
and-right true b h = h
and-right false b h = cc

outside :
    (value i : ℕ) (m : TreeMetadata) (s : MutableStore)
    → s.metadata ≡ some m
    → find_value value s.nodes ≡ some i
    → leb (2 ^ (m.tree_height + m.sub_tree_height) - 1) i
        && leb i (2 ^ (m.tree_height + m.sub_tree_height + 1) - 2)
      ≡ false
    → ¬ IsLeaf value s
outside value i m s read found test (m', i', read', found', low, high) =
    let same : m ≡ m' =
      ap (λ (o : Option TreeMetadata). elim o [ none ↦ m | some x ↦ x ]) (sym read ∙ read') in
    let at : i ≡ i' =
      ap (λ (o : Option ℕ). elim o [ none ↦ i | some x ↦ x ]) (sym found ∙ found') in
    (let passed : leb (2 ^ (m.tree_height + m.sub_tree_height) - 1) i
            && leb i (2 ^ (m.tree_height + m.sub_tree_height + 1) - 2)
          ≡ true =
        rw (same, at, leb-true _ _ low, leb-true _ _ high) refl in
      cc)

pub is_leaf-IsLeaf :
    (value : ℕ) (s : MutableStore)
    → ((is_leaf value s ≡ ok true) × IsLeaf value s)
      ⊎ ((is_leaf value s ≡ ok false) × ¬ IsLeaf value s)
      ⊎ ((e : Failure) × (is_leaf value s ≡ err e) × ¬ IsLeaf value s)
unfolding is_leaf
is_leaf-IsLeaf value s = elim (Option-cases s.metadata) [
  | inl absent ↦ inr (
      inr (
        error tree_not_found,
        rw absent refl,
        λ l. (let (m', i', read', found', low, high) = l in cc),
      ))
  | inr (m, read) ↦ elim (Option-cases (find_value value s.nodes)) [
    | inl absent ↦ inr (
        inl (
          rw (read, is_leaf, absent) refl,
          λ l. (let (m', i', read', found', low, high) = l in cc),
        ))
    | inr (i, found) ↦
        elim (Bool-cases (
          leb (2 ^ (m.tree_height + m.sub_tree_height) - 1) i
          && leb i (2 ^ (m.tree_height + m.sub_tree_height + 1) - 2))) [
            | inl inside ↦ inl (
              rw (read, is_leaf, found, is_leaf, inside) refl,
              (
                m,
                i,
                read,
                found,
                leb→le _ _ (and-left _ _ inside),
                leb→le _ _ (and-right _ _ inside),
              ),
            )
            | inr test ↦ inr (
                inl (
                  rw (read, is_leaf, found, is_leaf, test) refl,
                  outside value i m s read found test,
                ))
          ]
  ]
]
