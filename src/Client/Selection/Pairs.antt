-- ===== src/Client/Selection/Pairs.antt =====
-- The two pointers find the pair of commitments with the least change.
use nightfall_4_ce.Common.{
  ℕ, zero, suc, ◌+◌, ◌-◌, ◌*◌, ◌≤◌, ◌<◌, ◌≡◌, refl, ap, ◌⊎◌, inl, inr, arith, List, [], ◌∷◌, length,
  ltb-false, lt→ltb, ==_false, ==_self,
}
use native.Mathlib.Decide.{dec_lt, ℕ_discrete}
use nightfall_4_ce.Field.{Fr254, ◌+F◌, ◌-F◌, +F-exact, -F-exact, modulus, modulus_minus_one_div_two}
use nightfall_4_ce.Client.Entities.Defs.{Preimage, Point}
use nightfall_4_ce.Client.Selection.Defs.{preimage_at, two_pointers, find_subset_two_commitments}

module _ (point : Point) (target : Fr254) (cs : List Preimage) where
  abbrev pub value_at : ℕ → ℕ
  value_at i = (preimage_at point cs i).value

  abbrev pub pair_of : ℕ → ℕ → List Preimage
  pair_of i j = preimage_at point cs i ∷ preimage_at point cs j ∷ []

  -- The pairs of positions that reach the target.
  pub record Reaches (i j : ℕ) : Type 0 where
    pub ordered : i < j
    pub inside : j < length cs
    pub enough : target ≤ value_at i + value_at j

  -- What a search for a pair should answer: nothing if no pair reaches the target, and otherwise a
  -- pair that reaches it with the least sum.
  pub data BestPair : List Preimage → Type 0 where
    no_pair : ((i j : ℕ) → Reaches i j → ⊥) → BestPair []
    least :
        (i j : ℕ)
        → Reaches i j
        → ((i' j' : ℕ) → Reaches i' j' → value_at i + value_at j ≤ value_at i' + value_at j')
        → BestPair (pair_of i j)

  -- What the loop keeps of the pairs that it has passed.
  data Kept (change : ℕ) : List Preimage → Type 0 where
    nothing : change ≡ modulus_minus_one_div_two → Kept change []
    chosen_pair :
        (i j : ℕ)
        → Reaches i j
        → value_at i + value_at j ≡ target + change
        → Kept change (pair_of i j)

  abbrev IsPassed : ℕ → ℕ → ℕ → Type 0
  IsPassed lhs rhs change =
      (i j : ℕ) → Reaches i j → (lhs ≤ i) × (j ≤ rhs) ⊎ (target + change ≤ value_at i + value_at j)

  module _ (sorted : (i j : ℕ) → i ≤ j → j < length cs → value_at i ≤ value_at j)
      (small : (i : ℕ) → i < length cs → 2 * value_at i < modulus_minus_one_div_two) where
    -- The loop has ended: the pair that it kept is the best.
    Kept-BestPair :
        (lhs rhs change : ℕ) {chosen : List Preimage}
        → rhs ≤ lhs
        → IsPassed lhs rhs change
        → Kept change chosen
        → BestPair chosen
    Kept-BestPair lhs rhs change done passed (nothing e) = no_pair (λ i j r. elim (passed i j r) [
      | inl (a, b) ↦ absurd (omega (arith, r.ordered))
      | inr far ↦ absurd (
          omega (
            arith,
            r.ordered,
            r.inside,
            small i (omega (arith, r.ordered, r.inside)),
            small j r.inside,
          ))
    ])
    Kept-BestPair lhs rhs change done passed (chosen_pair i j r e) = least i j r (λ i' j' r'.
        elim (passed i' j' r') [
          | inl (a, b) ↦ absurd (omega (arith, r'.ordered))
          | inr far ↦ omega arith
        ])

    -- The right pointer moves: the pairs at it are no better than the one that was met.
    IsPassed-right :
        (lhs rhs change new : ℕ)
        → lhs < rhs
        → rhs < length cs
        → target + new ≤ value_at lhs + value_at rhs
        → new ≤ change
        → IsPassed lhs rhs change
        → IsPassed lhs (rhs - 1) new
    IsPassed-right lhs rhs change new lt inside met less passed i j r = elim (passed i j r) [
      | inl (a, b) ↦ elim (dec_lt j rhs) [
        | yes left ↦ inl (a, omega arith)
        | no at ↦
            let here : j ≡ rhs = omega arith in
            inr (rw here (omega (arith, sorted lhs i a (omega (arith, r.ordered, r.inside)), met)))
      ]
      | inr far ↦ inr (omega arith)
    ]

    -- The left pointer moves: the pairs at it do not reach the target.
    IsPassed-left :
        (lhs rhs change : ℕ)
        → rhs < length cs
        → value_at lhs + value_at rhs < target
        → IsPassed lhs rhs change
        → IsPassed (lhs + 1) rhs change
    IsPassed-left lhs rhs change inside short passed i j r = elim (passed i j r) [
      | inl (a, b) ↦ elim (dec_lt lhs i) [
        | yes right ↦ inl (omega arith, b)
        | no at ↦
            let here : i ≡ lhs = omega arith in
            absurd (omega (arith, sorted j rhs b inside, r.enough, ap value_at here))
      ]
      | inr far ↦ inr far
    ]

    two_pointers-BestPair :
        (fuel lhs rhs change : ℕ) {chosen : List Preimage}
        → rhs < length cs
        → rhs - lhs < fuel
        → IsPassed lhs rhs change
        → Kept change chosen
        → BestPair (two_pointers point fuel target cs lhs rhs change chosen)
    unfolding two_pointers
    two_pointers-BestPair zero lhs rhs change inside enough passed kept = absurd (omega arith)
    two_pointers-BestPair (suc fuel) lhs rhs change inside enough passed kept =
        elim (dec_lt lhs rhs) [
          | no done ↦
              rw (ltb-false lhs rhs (omega arith))
                (Kept-BestPair lhs rhs change (omega arith) passed kept)
          | yes lt ↦
              let exact : value_at lhs +F value_at rhs ≡ value_at lhs + value_at rhs =
                +F-exact (value_at lhs) (value_at rhs)
                  (omega (arith, small lhs (omega arith), small rhs inside)) in
              let below : value_at lhs + value_at rhs < modulus =
                omega (arith, small lhs (omega arith), small rhs inside) in
              rw (lt→ltb lhs rhs lt, exact)
                (elim (ℕ_discrete (value_at lhs + value_at rhs) target) [
                  | yes same ↦
                      rw (same, ==_self target)
                        (least lhs rhs
                          (record { ordered = lt; inside = inside; enough = omega arith })
                          (λ i' j' r'. omega (arith, r'.enough)))
                  | no other ↦
                      rw (==_false (value_at lhs + value_at rhs) target other)
                        (elim (dec_lt target (value_at lhs + value_at rhs)) [
                          | no short ↦
                              rw (ltb-false target (value_at lhs + value_at rhs) (omega arith)) (
                                two_pointers-BestPair fuel (lhs + 1) rhs change inside (omega arith)
                                  (IsPassed-left lhs rhs change inside (omega arith) passed) kept)
                          | yes over ↦
                              let diff : (value_at lhs + value_at rhs) -F target
                                  ≡ value_at lhs + value_at rhs - target =
                                -F-exact (value_at lhs + value_at rhs) target (omega arith) below in
                              rw (lt→ltb target (value_at lhs + value_at rhs) over, diff)
                                (elim (dec_lt (value_at lhs + value_at rhs - target) change) [
                                  | yes closer ↦ rw (lt→ltb _ _ closer) (
                                      two_pointers-BestPair fuel lhs (rhs - 1)
                                        (value_at lhs + value_at rhs - target) (omega arith)
                                        (omega arith)
                                        (IsPassed-right lhs rhs change
                                          (value_at lhs + value_at rhs - target) lt inside
                                          (omega arith) (omega arith) passed)
                                        (chosen_pair lhs rhs
                                          (record {
                                            ordered = lt;
                                            inside = inside;
                                            enough = omega arith;
                                          })
                                          (omega arith)))
                                  | no farther ↦
                                      rw
                                        (ltb-false (value_at lhs + value_at rhs - target) change
                                          (omega arith))
                                        (two_pointers-BestPair fuel lhs (rhs - 1) change
                                          (omega arith) (omega arith)
                                          (IsPassed-right lhs rhs change change lt inside
                                            (omega arith) (omega arith) passed)
                                          kept)
                                ])
                        ])
                ])
        ]

    -- On a list of at least two commitments, sorted by value, each of less than a quarter of the
    -- field, the search answers a pair that reaches the target with the least sum, or nothing if no
    -- pair reaches it.
    pub find_subset_two_commitments-BestPair :
        1 < length cs → BestPair (find_subset_two_commitments point target cs)
    unfolding find_subset_two_commitments
    find_subset_two_commitments-BestPair more =
        two_pointers-BestPair (length cs) 0 (length cs - 1) modulus_minus_one_div_two (omega arith)
          (omega arith) (λ i j r. inl (omega arith, omega (arith, r.inside))) (nothing refl)
