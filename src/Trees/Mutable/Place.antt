-- ===== src/Trees/Mutable/Place.antt =====
-- One sub tree placed in a tree: the leaves of its block are written, the others are kept, every node
-- is the hash of its children again, and the root that the loop ends with is the Merkle root.
use nightfall_4_ce.Common.{
  ℕ, zero, suc, ◌+◌, ◌-◌, ◌*◌, ◌^◌, ◌≤◌, ◌<◌, ◌≡◌, refl, sym, ap, ◌∙◌, arith, List, ◌++◌, some,
  get_or, get_elem?-get_or, ltb, lt→ltb, ltb-false, if◌then◌else◌,
}
use native.Mathlib.Nat.{pow-suc, one-le-pow, add-suc, add-zero}
use native.Mathlib.Decide.{dec_lt}
use nightfall_4_ce.Trees.Root.{root_of, leaf_at}
use nightfall_4_ce.Trees.AppendOnly.Blocks.{pow_above_one}
use nightfall_4_ce.Trees.Complete.{IsCompleteTree}
use nightfall_4_ce.Trees.Mutable.Store.{Node}
use nightfall_4_ce.Trees.Mutable.Defs.{path_updates, place_sub_tree, sub_tree_updates}
use nightfall_4_ce.Trees.Mutable.Overlay.{overlay}
use nightfall_4_ce.Trees.Mutable.Heap.{
  IsHeapUpTo, IsPlaced, path_writes, path_writes-IsPlaced, heap-root_of,
}
use nightfall_4_ce.Trees.Mutable.Rows.{
  IsGrown, IsGrown-at, sub_tree_updates-IsGrown, overlay-append, at_least,
}

-- The leaves `f` with the block `c` of `2 ^ k` leaves replaced by a list.
unfoldable pub with_block : (ℕ → ℕ) → ℕ → ℕ → List ℕ → ℕ → ℕ
with_block f k c leaves i =
    if ltb i (c * 2 ^ k)
    then f i
    else if ltb i (c * 2 ^ k + 2 ^ k)
    then leaf_at leaves (i - c * 2 ^ k)
    else f i

pub with_block-before :
    (f : ℕ → ℕ) (k c : ℕ) (leaves : List ℕ) (i : ℕ)
    → i < c * 2 ^ k
    → with_block f k c leaves i ≡ f i
unfolding with_block
with_block-before f k c leaves i lt = rw (lt→ltb i (c * 2 ^ k) lt) refl

pub with_block-inside :
    (f : ℕ → ℕ) (k c : ℕ) (leaves : List ℕ) (i : ℕ)
    → c * 2 ^ k ≤ i
    → i < c * 2 ^ k + 2 ^ k
    → with_block f k c leaves i ≡ leaf_at leaves (i - c * 2 ^ k)
unfolding with_block
with_block-inside f k c leaves i le lt =
    rw (ltb-false i (c * 2 ^ k) le, lt→ltb i (c * 2 ^ k + 2 ^ k) lt) refl

pub with_block-after :
    (f : ℕ → ℕ) (k c : ℕ) (leaves : List ℕ) (i : ℕ)
    → c * 2 ^ k + 2 ^ k ≤ i
    → with_block f k c leaves i ≡ f i
unfolding with_block
with_block-after f k c leaves i le =
    rw (ltb-false i (c * 2 ^ k) (omega arith), ltb-false i (c * 2 ^ k + 2 ^ k) le) refl

pub pow_add : (a b : ℕ) → 2 ^ (a + b) ≡ 2 ^ a * 2 ^ b
pow_add a zero = ap (λ (t : ℕ). 2 ^ t) (add-zero a) ∙ omega arith
pow_add a (suc b) =
    ap (λ (t : ℕ). 2 ^ t) (add-suc a b)
    ∙ pow-suc 2 (a + b)
    ∙ ap (λ (t : ℕ). t * 2) (pow_add a b)
    ∙ grind (arith, pow-suc 2 b)

pub level_narrow : (rounds rows : ℕ) → 2 ^ rounds ≤ 2 ^ (rounds + rows)
level_narrow rounds rows = rw (pow_add rounds rows) (at_least (2 ^ rounds) rows)

-- The last row starts at the block.
block_start :
    (rounds rows c : ℕ)
    → (2 ^ rounds - 1 + c + 1) * 2 ^ rows - 1 ≡ 2 ^ (rounds + rows) - 1 + c * 2 ^ rows
block_start rounds rows c =
    let some_node : 1 ≤ 2 ^ rounds = one-le-pow rounds 2 (omega arith) in
    let leaf : 1 ≤ 2 ^ (rounds + rows) = one-le-pow (rounds + rows) 2 (omega arith) in
    let e : 2 ^ rounds - 1 + c + 1 ≡ 2 ^ rounds + c = omega arith in
    let spread : (2 ^ rounds + c) * 2 ^ rows ≡ 2 ^ (rounds + rows) + c * 2 ^ rows =
      grind (arith, pow_add rounds rows) in
    rw (e, spread) (omega arith)

level_start : (rounds rows : ℕ) → (2 ^ rounds - 1 + 1) * 2 ^ rows - 1 ≡ 2 ^ (rounds + rows) - 1
level_start rounds rows =
    let some_node : 1 ≤ 2 ^ rounds = one-le-pow rounds 2 (omega arith) in
    let e : 2 ^ rounds - 1 + 1 ≡ 2 ^ rounds = omega arith in rw (e, sym (pow_add rounds rows)) refl

module _ (hasher : ℕ → ℕ → ℕ) where
  -- A full heap of this height with these leaves.
  pub record IsFull (height : ℕ) (f g : ℕ → ℕ) : Type 0 where
    pub heap : IsHeapUpTo hasher (2 ^ height - 1) g
    pub leaves : (i : ℕ) → i < 2 ^ height → g (2 ^ height - 1 + i) ≡ f i

  pub IsFull-root_of :
      (height : ℕ) (f g : ℕ → ℕ) → IsFull height f g → g 0 ≡ root_of hasher height f
  IsFull-root_of height f g full = heap-root_of hasher height g f full.heap full.leaves

  placed-IsGrown :
      (first c v root : ℕ) (tree : List ℕ) (g g' : ℕ → ℕ)
      → c ≤ first
      → get_or tree 0 0 ≡ v
      → IsPlaced hasher first (first + c) v root g g'
      → IsGrown hasher first (first + c) 1 tree root g g'
  placed-IsGrown first c v root tree g g' le e p = record {
    heap = p.heap;
    inside = λ i lt.
        ap g' (omega arith) ∙ p.here ∙ sym e ∙ ap (λ (t : ℕ). get_or tree t 0) (omega arith);
    before = λ j le' lt. p.others j le' (λ e'. omega arith);
    after = λ j le'. p.others j (omega arith) (λ e'. omega arith);
    starts = omega arith;
    ends = omega arith;
    some_node = omega arith;
    top = p.top;
  }

  -- The last row of the sub tree is the block of the leaves.
  grown-IsFull :
      (rounds rows c root : ℕ) (leaves tree : List ℕ) (f g g' : ℕ → ℕ)
      → c < 2 ^ rounds
      → IsCompleteTree hasher rows leaves tree
      → IsFull (rounds + rows) f g
      → IsGrown hasher
          (2 ^ (rounds + rows) - 1)
          (2 ^ (rounds + rows) - 1 + c * 2 ^ rows)
          (2 ^ rows)
          tree
          root
          g
          g'
      → IsFull (rounds + rows) (with_block f rows c leaves) g'
  unfolding with_block
  grown-IsFull rounds rows c root leaves tree f g g' lt built full d = record {
    heap = d.heap;
    leaves = λ i lt'. elim (dec_lt i (c * 2 ^ rows)) [
      | yes before ↦
          d.before (2 ^ (rounds + rows) - 1 + i) (omega arith) (omega arith)
          ∙ full.leaves i lt'
          ∙ sym (with_block-before f rows c leaves i before)
      | no above ↦ elim (dec_lt i (c * 2 ^ rows + 2 ^ rows)) [
        | yes inside ↦
            ap g' (omega arith)
            ∙ d.inside (i - c * 2 ^ rows) (omega arith)
            ∙ built.last_level (i - c * 2 ^ rows) (omega arith)
            ∙ sym (with_block-inside f rows c leaves i (omega arith) inside)
        | no after ↦
            d.after (2 ^ (rounds + rows) - 1 + i) (omega arith)
            ∙ full.leaves i lt'
            ∙ sym (with_block-after f rows c leaves i (omega arith))
      ]
    ];
  }

  -- A run of the two loops on a full heap.
  pub record IsWritten (rounds rows c : ℕ) (leaves tree : List ℕ) (f g : ℕ → ℕ) : Type 0 where
    pub writes : List Node
    pub root : ℕ
    pub returned :
        place_sub_tree hasher g rounds rows (2 ^ rounds - 1 + c) tree ≡ some (writes, root)
    pub full : IsFull (rounds + rows) (with_block f rows c leaves) (overlay writes g)
    pub top : overlay writes g 0 ≡ root

  pub place_sub_tree-IsWritten :
      (rounds rows c : ℕ) (leaves tree : List ℕ) (f g : ℕ → ℕ)
      → c < 2 ^ rounds
      → IsCompleteTree hasher rows leaves tree
      → IsFull (rounds + rows) f g
      → IsWritten rounds rows c leaves tree f g
  unfolding place_sub_tree path_writes
  place_sub_tree-IsWritten rounds rows c leaves tree f g lt built full =
      let placed =
        path_writes-IsPlaced hasher g g rounds (2 ^ rounds - 1 + c) (get_or tree 0 0) (omega arith)
          (omega (arith, one-le-pow rounds 2 (omega arith))) (λ j _ _. refl)
          (λ j lt. full.heap j (omega (arith, level_narrow rounds rows))) in
      let (vs, made, grown) =
        sub_tree_updates-IsGrown hasher rows (2 ^ rounds - 1) (2 ^ rounds - 1 + c) 1 0 tree _ g
          (overlay (path_writes hasher g rounds (2 ^ rounds - 1 + c) (get_or tree 0 0)) g)
          (λ j lt. full.heap j (omega (arith, level_start rounds rows)))
          (λ j lt. built.heap j (omega arith))
          (omega (arith, built.size, one-le-pow (rows + 1) 2 (omega arith))) refl
          (placed-IsGrown (2 ^ rounds - 1) c (get_or tree 0 0) _ tree g _ (omega arith) refl
            placed) in
      written vs made (
        IsGrown-at hasher (sym (level_start rounds rows)) (sym (block_start rounds rows c))
          (omega arith)
          (overlay-append (path_writes hasher g rounds (2 ^ rounds - 1 + c) (get_or tree 0 0)) vs g)
          grown)
    where
      index : ℕ
      index = 2 ^ rounds - 1 + c

      ups : List Node
      ups = path_writes hasher g rounds index (get_or tree 0 0)

      written :
          (vs : List Node)
          → sub_tree_updates rows index 0 1 tree ≡ some vs
          → IsGrown hasher
              (2 ^ (rounds + rows) - 1)
              (2 ^ (rounds + rows) - 1 + c * 2 ^ rows)
              (2 ^ rows)
              tree
              (path_updates hasher g rounds index (get_or tree 0 0)).1
              g
              (overlay (ups ++ vs) g)
          → IsWritten rounds rows c leaves tree f g
      written vs made grown = record {
        writes = ups ++ vs;
        root = (path_updates hasher g rounds index (get_or tree 0 0)).1;
        returned =
            rw
              (
                get_elem?-get_or tree 0 0 (omega (arith, built.size, pow_above_one rows)),
                place_sub_tree,
                made,
                place_sub_tree,
              )
              refl;
        full = grown-IsFull rounds rows c _ leaves tree f g _ lt built full grown;
        top = grown.top;
      }
