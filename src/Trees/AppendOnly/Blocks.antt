-- ===== src/Trees/AppendOnly/Blocks.antt =====
-- Arithmetic of the batches of `append_sub_trees`, and their first node.
use nightfall_4_ce.Common.{
  ℕ, zero, suc, ◌+◌, ◌*◌, ◌^◌, ◌≤◌, ◌<◌, ◌≡◌, refl, ap, arith, List, [], ◌∷◌, some, length, get_or,
  ok,
}
use native.Mathlib.Numerals.{add-one}
use native.Mathlib.Nat.{pow-suc, one-le-pow}
use nightfall_4_ce.Trees.AppendOnly.Defs.{first_node}

pub block_inside : (i n j w : ℕ) → i < n → j < w → i * w + j < n * w
block_inside i n j w lt lt' = grind arith

pub block_beyond : (i n j w : ℕ) → n < i → n * w + w ≤ i * w + j
block_beyond i n j w lt = grind arith

pub pow_above_one : (sub : ℕ) → 1 < 2 ^ (sub + 1)
pow_above_one sub =
    omega
      (arith, ap (λ (t : ℕ). 2 ^ t) (add-one sub), pow-suc 2 sub, one-le-pow sub 2 (omega arith))

pub first_node-eq :
    (nodes : List ℕ) → 0 < length nodes → first_node (some nodes) ≡ ok (get_or nodes 0 0)
unfolding first_node
first_node-eq [] h = elim h [ ]
first_node-eq (x ∷ xs) h = refl

pub no_blocks : (m w : ℕ) → 1 ≤ w → 0 ≡ m * w → m ≡ 0
no_blocks zero w h e = refl
no_blocks (suc m) w h e = absurd (omega arith)

pub none_of : (m : ℕ) → m ≤ 0 → m ≡ 0
none_of m h = omega arith

pub nil_of_length : (xs : List ℕ) → length xs ≡ 0 → xs ≡ []
nil_of_length [] h = refl
nil_of_length (x ∷ xs) h = absurd (omega arith)
