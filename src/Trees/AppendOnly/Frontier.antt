-- ===== src/Trees/AppendOnly/Frontier.antt =====
-- What the frontier of an append-only tree holds, and that one more sub tree keeps it so.
use nightfall_4_ce.Common.{
  ℕ, zero, suc, ◌+◌, ◌-◌, ◌*◌, ◌/◌, ◌%◌, ◌^◌, ◌<◌, ◌≡◌, refl, ◌∙◌, ap, ◌⊎◌, inl, inr, arith, some,
  ◌==◌, ltb, false, ltb-false, ==_false,
}
use native.Mathlib.Nat.{pow-suc, mul-mod_left, add-mul-mod_self_right, mod-eq_of_lt}
use nightfall_4_ce.Trees.Helpers.{frontier_loop, get_frontier_index}

-- The number of ones at the end of the binary digits.
pub data TrailingOnes : ℕ → ℕ → Type 0 where
  none_left : {n : ℕ} → n % 2 ≡ 0 → TrailingOnes n 0
  one_more : {n k : ℕ} → n % 2 ≡ 1 → TrailingOnes (n / 2) k → TrailingOnes n (suc k)

pub even_or_odd : (n : ℕ) → (n % 2 ≡ 0) ⊎ (n % 2 ≡ 1)
even_or_odd n = ground arith

-- The loop finds them, with fuel above what is left of the index.
frontier_loop_lem :
    (fuel n e p m : ℕ)
    → n + 1 ≡ p * (m + 1)
    → 0 < p
    → m < fuel
    → (k : ℕ) × (frontier_loop fuel n e p (p * 2) ≡ some (e + k)) × TrailingOnes m k
unfolding frontier_loop
frontier_loop_lem zero n e p m h pos lt = absurd (omega arith)
frontier_loop_lem (suc fuel) n e p m h pos lt =
    let halves : m ≡ 2 * (m / 2) + m % 2 = omega arith in
    let fits : ltb (n + 1) p ≡ false = ltb-false (n + 1) p (grind (arith, h)) in
    elim (even_or_odd m) [
      | inl even ↦
          let whole : n + 1 - p ≡ (m / 2) * (p * 2) =
            omega (arith, ap (λ (t : ℕ). p * t) halves, ap (λ (t : ℕ). p * t) even) in
          let gone : (n + 1 - p) % (p * 2) ≡ 0 = rw whole (mul-mod_left (m / 2) (p * 2)) in
          (0, rw (fits, gone) (ap some (omega arith)), none_left even)
      | inr odd ↦
          let whole : n + 1 - p ≡ p + (m / 2) * (p * 2) =
            omega (arith, ap (λ (t : ℕ). p * t) halves, ap (λ (t : ℕ). p * t) odd) in
          let left : (n + 1 - p) % (p * 2) ≡ p =
            rw whole
              (add-mul-mod_self_right p (m / 2) (p * 2) ∙ mod-eq_of_lt {m = p * 2} (omega arith)) in
          let (k, found, ones) =
            frontier_loop_lem fuel n (e + 1) (p * 2) (m / 2)
              (omega (arith, ap (λ (t : ℕ). p * t) halves, ap (λ (t : ℕ). p * t) odd)) (omega arith)
              (omega arith) in
          let busy : ((n + 1 - p) % (p * 2) == 0) ≡ false =
            rw left (==_false p 0 (λ z. omega arith)) in
          (suc k, rw (fits, busy) (found ∙ ap some (omega arith)), one_more odd ones)
    ]

get_frontier_index_odd :
    (n : ℕ) {k : ℕ}
    → n % 2 ≡ 1
    → frontier_loop n n 1 2 4 ≡ some (1 + k)
    → get_frontier_index n ≡ some (suc k)
unfolding get_frontier_index
get_frontier_index_odd n odd found = rw odd (found ∙ ap some (omega arith))

get_frontier_index_even : (n : ℕ) → n % 2 ≡ 0 → get_frontier_index n ≡ some 0
unfolding get_frontier_index
get_frontier_index_even n even = rw even

-- The loop of `get_frontier_index` ends for every index, and what it finds is the number of
-- trailing ones of the index.
pub get_frontier_index_lem : (n : ℕ) → (k : ℕ) × (get_frontier_index n ≡ some k) × TrailingOnes n k
get_frontier_index_lem n = elim (even_or_odd n) [
  | inl even ↦ (0, get_frontier_index_even n even, none_left even)
  | inr odd ↦
      let (k, found, ones) =
        frontier_loop_lem n n 1 2 (n / 2) (omega arith) (omega arith) (omega arith) in
      (suc k, get_frontier_index_odd n odd found, one_more odd ones)
]

-- Below the last index of the tree the frontier has a place for the hash.
pub TrailingOnes-lt : (height n : ℕ) {k : ℕ} → TrailingOnes n k → n + 1 < 2 ^ height → k < height
TrailingOnes-lt zero n ones h = absurd (omega arith)
TrailingOnes-lt (suc height) n (none_left e) h = omega arith
TrailingOnes-lt (suc height) n (one_more odd ones) h =
    omega (arith, TrailingOnes-lt height (n / 2) ones (omega (arith, pow-suc 2 height)))

-- At the last index it has none.
pub TrailingOnes-last : (height n : ℕ) {k : ℕ} → TrailingOnes n k → n + 1 ≡ 2 ^ height → k ≡ height
TrailingOnes-last zero n (none_left e) h = refl
TrailingOnes-last zero n (one_more odd ones) h = absurd (omega arith)
TrailingOnes-last (suc height) n (none_left e) h = absurd (omega (arith, pow-suc 2 height))
TrailingOnes-last (suc height) n (one_more odd ones) h =
    ap suc (TrailingOnes-last height (n / 2) ones (omega (arith, pow-suc 2 height)))
