-- ===== src/Trees/Mutable/Change.antt =====
-- What `update_sub_tree` and `insert_leaf` make of the leaves that a mutable tree represents.
use nightfall_4_ce.Common.{
  ℕ, zero, suc, ◌+◌, ◌-◌, ◌*◌, ◌/◌, ◌%◌, ◌^◌, ◌≤◌, ◌<◌, ◌≡◌, ◌≢◌, ◌⊎◌, inl, inr, refl, sym, ap, ◌∙◌,
  arith, Bool, true, false, ◌&&◌, List, some, ◌==◌, ==_false, ==→≡, ltb, ltb-false, length,
  if◌then◌else◌, Bool-cases,
}
use native.Mathlib.Nat.{pow-suc, one-le-pow}
use native.Mathlib.Decide.{dec_lt}
use nightfall_4_ce.Trees.Types.{TreeMetadata}
use nightfall_4_ce.Trees.Helpers.{make_complete_tree}
use nightfall_4_ce.Trees.Complete.{make_complete_tree-IsCompleteTree}
use nightfall_4_ce.Trees.AppendOnly.Laws.{mul_mono}
use nightfall_4_ce.Trees.Mutable.Store.{Node, MutableStore, get_node}
use nightfall_4_ce.Trees.Mutable.Defs.{is_power_of_two, ilog2, place_sub_tree}
use nightfall_4_ce.Trees.Mutable.Update.{levels_above, place_leaves}
use nightfall_4_ce.Trees.Mutable.Overlay.{overlay}
use nightfall_4_ce.Trees.Mutable.Place.{with_block, IsFull, place_sub_tree-IsWritten, pow_add}

pub le_pow : (k : ℕ) → k < 2 ^ k
le_pow zero = omega arith
le_pow (suc k) = omega (arith, le_pow k, pow-suc 2 k)

ilog2-pow : (k fuel : ℕ) → k ≤ fuel → ilog2 fuel (2 ^ k) ≡ k
unfolding ilog2
ilog2-pow zero zero le = refl
ilog2-pow zero (suc fuel) le = refl
ilog2-pow (suc k) zero le = absurd (omega arith)
ilog2-pow (suc k) (suc fuel) le =
    let half : 2 ^ suc k / 2 ≡ 2 ^ k = omega (arith, pow-suc 2 k) in
    let large : ltb (2 ^ suc k) 2 ≡ false =
      ltb-false (2 ^ suc k) 2 (omega (arith, pow-suc 2 k, one-le-pow k 2 (omega arith))) in
    rw (large, half, ilog2-pow k fuel (omega arith)) (omega arith)

pub is_power_of_two-pow : (k fuel : ℕ) → k ≤ fuel → is_power_of_two fuel (2 ^ k) ≡ true
unfolding is_power_of_two
is_power_of_two-pow zero zero le = refl
is_power_of_two-pow zero (suc fuel) le = refl
is_power_of_two-pow (suc k) zero le = absurd (omega arith)
is_power_of_two-pow (suc k) (suc fuel) le =
    let half : 2 ^ suc k / 2 ≡ 2 ^ k = omega (arith, pow-suc 2 k) in
    let large : (2 ^ suc k == 1) ≡ false =
      ==_false (2 ^ suc k) 1 (λ e. omega (arith, pow-suc 2 k, one-le-pow k 2 (omega arith))) in
    let even : 2 ^ suc k % 2 ≡ 0 = omega (arith, pow-suc 2 k) in
    rw (large, even, half, is_power_of_two-pow k fuel (omega arith)) refl

refuted :
    (a b c : Bool) → a ≡ false → (b ≡ false) ⊎ (c ≡ false) → (if a then true else b && c) ≢ true
refuted a b c e (inl e') h = ground (arith, e, e', h)
refuted a b c e (inr e') h = ground (arith, e, e', h)

-- The test passes on powers of two only.
pub is_power_of_two_inv : (fuel n : ℕ) → is_power_of_two fuel n ≡ true → (k : ℕ) × (n ≡ 2 ^ k)
unfolding is_power_of_two
is_power_of_two_inv zero n h = (0, ==→≡ n 1 h)
is_power_of_two_inv (suc fuel) n h = elim (Bool-cases (n == 1)) [
  | inl one ↦ (0, ==→≡ n 1 one)
  | inr more ↦ elim (Bool-cases (is_power_of_two fuel (n / 2))) [
    | inl half ↦
        let (k, e) = is_power_of_two_inv fuel (n / 2) half in
        elim (Bool-cases (n % 2 == 0)) [
          | inl even ↦ (suc k, omega (arith, e, ==→≡ (n % 2) 0 even, pow-suc 2 k))
          | inr odd ↦ absurd (refuted (n == 1) (n % 2 == 0) _ more (inl odd) h)
        ]
    | inr odd ↦ absurd (refuted (n == 1) (n % 2 == 0) _ more (inr odd) h)
  ]
]

levels_above_lem :
    (m : TreeMetadata) (k : ℕ)
    → k ≤ m.sub_tree_height
    → (h : ℕ) × (levels_above m k ≡ some h) × (h + k ≡ m.tree_height + m.sub_tree_height)
unfolding levels_above
levels_above_lem m k le = elim (Bool-cases (k == m.sub_tree_height)) [
  | inl same ↦ (m.tree_height, rw same refl, omega (arith, ==→≡ k m.sub_tree_height same))
  | inr other ↦ (
    m.tree_height + m.sub_tree_height - k,
    rw (other, ltb-false (m.tree_height + m.sub_tree_height) k (omega arith)) refl,
    omega arith,
  )
]

rows_lem : (k sub n : ℕ) → (k ≡ 0) ⊎ (k ≡ sub) → n ≡ 2 ^ k → (if n == 1 then 0 else sub) ≡ k
rows_lem k sub n (inl zero_rows) e =
    let one : n ≡ 1 = e ∙ rw zero_rows refl in rw (one, zero_rows) refl
rows_lem zero sub n (inr same) e = rw e refl
rows_lem (suc k) sub n (inr same) e =
    rw (==_false n 1 (λ z. omega (arith, pow-suc 2 k, one-le-pow k 2 (omega arith)))) (sym same)

module _ (hasher : ℕ → ℕ → ℕ) where
  place_leaves_at :
      (m : TreeMetadata) (k c h root : ℕ) (leaves tree : List ℕ) (us : List Node) (s : MutableStore)
      → ilog2 (length leaves) (length leaves) ≡ k
      → make_complete_tree k hasher leaves ≡ some tree
      → levels_above m k ≡ some h
      → (if length leaves == 1 then 0 else m.sub_tree_height) ≡ k
      → place_sub_tree hasher (λ i. get_node i s) h k (2 ^ h - 1 + c) tree ≡ some (us, root)
      → place_leaves hasher m c leaves s ≡ some (us, root)
  unfolding place_leaves
  place_leaves_at m k c h root leaves tree us s size made height rows placed =
      rw (place_leaves, size, made, place_leaves, size, height, rows, placed) refl

  IsFull-height : {h h' : ℕ} {f g : ℕ → ℕ} → h ≡ h' → IsFull hasher h f g → IsFull hasher h' f g
  IsFull-height e full = rw (sym e) full

  -- The writes of `update_sub_tree`, at the block `c` of `2 ^ k` leaves.
  pub place_leaves_lem :
      (m : TreeMetadata) (k c : ℕ) (leaves : List ℕ) (f : ℕ → ℕ) (s : MutableStore)
      → IsFull hasher (m.tree_height + m.sub_tree_height) f (λ i. get_node i s)
      → (k ≡ 0) ⊎ (k ≡ m.sub_tree_height)
      → length leaves ≡ 2 ^ k
      → c * 2 ^ k < 2 ^ (m.tree_height + m.sub_tree_height)
      → (us : List Node) × (root : ℕ) × (place_leaves hasher m c leaves s ≡ some (us, root))
        × IsFull hasher
            (m.tree_height + m.sub_tree_height)
            (with_block f k c leaves)
            (overlay us (λ i. get_node i s))
        × (overlay us (λ i. get_node i s) 0 ≡ root)
  place_leaves_lem m k c leaves f s full shape sized inside =
      let (h, height, total) = levels_above_lem m k (small shape) in
      let (tree, made, built) = make_complete_tree-IsCompleteTree hasher k leaves (omega arith) in
      let w =
        place_sub_tree-IsWritten hasher h k c leaves tree f (λ i. get_node i s) (room h total) built
          (IsFull-height (sym total) full) in
      (
        w.writes,
        w.root,
        place_leaves_at m k c h w.root leaves tree w.writes s ilog2_size made height
            (rows_lem k m.sub_tree_height (length leaves) shape sized) w.returned,
        IsFull-height total w.full,
        w.top,
      )
    where
      small : (k ≡ 0) ⊎ (k ≡ m.sub_tree_height) → k ≤ m.sub_tree_height
      small (inl e) = omega arith
      small (inr e) = omega arith

      ilog2_size : ilog2 (length leaves) (length leaves) ≡ k
      ilog2_size = rw sized (ilog2-pow k (2 ^ k) (omega (arith, le_pow k)))

      room : (h : ℕ) → h + k ≡ m.tree_height + m.sub_tree_height → c < 2 ^ h
      room h total = elim (dec_lt c (2 ^ h)) [
        | yes lt ↦ lt
        | no ge ↦ absurd (
            omega (
              arith,
              ap (λ (t : ℕ). 2 ^ t) total,
              pow_add h k,
              mul_mono (2 ^ h) c (2 ^ k) (omega arith),
            ))
      ]
