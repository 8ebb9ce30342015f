-- ===== src/Trees/Root.antt =====
-- The independent description of a Merkle root: the leaves are a function of their position, and
-- each level is made from the one below.
use nightfall_4_ce.Common.{ℕ, zero, suc, ◌+◌, ◌*◌, ◌^◌, ◌<◌, ◌≡◌, sym, ap, ◌∙◌, arith, List, get_or}
use mathlib.Core.Path.{ap₂}
use native.Mathlib.Nat.{pow-suc, add-suc, add-zero}

abbrev pub level_up : (ℕ → ℕ → ℕ) → (ℕ → ℕ) → ℕ → ℕ
level_up hasher f i = hasher (f (2 * i)) (f (2 * i + 1))

-- The root of the tree of this height over the leaves `f 0`, `f 1`, and so on.
unfoldable pub root_of : (ℕ → ℕ → ℕ) → ℕ → (ℕ → ℕ) → ℕ
root_of hasher zero f = f 0
root_of hasher (suc height) f = root_of hasher height (level_up hasher f)

-- The leaves of a list, with zero leaves after them.
abbrev pub leaf_at : List ℕ → ℕ → ℕ
leaf_at xs i = get_or xs i 0

-- Only the leaves under the root matter.
pub root_of_ext :
    (hasher : ℕ → ℕ → ℕ) (height : ℕ) (f g : ℕ → ℕ)
    → ((i : ℕ) → i < 2 ^ height → f i ≡ g i)
    → root_of hasher height f ≡ root_of hasher height g
unfolding root_of
root_of_ext hasher zero f g h = h 0 (omega arith)
root_of_ext hasher (suc height) f g h =
    root_of_ext hasher height (level_up hasher f) (level_up hasher g) (λ i lt.
      ap₂ hasher (h (2 * i) (omega (arith, pow-suc 2 height)))
        (h (2 * i + 1) (omega (arith, pow-suc 2 height))))

-- A tree whose leaves are the roots of sub trees is the tall tree over all the leaves.
pub root_of-root_of :
    (hasher : ℕ → ℕ → ℕ) (height sub : ℕ) (f : ℕ → ℕ)
    → root_of hasher height (λ i. root_of hasher sub (λ j. f (i * 2 ^ sub + j)))
      ≡ root_of hasher (height + sub) f
unfolding root_of
root_of-root_of hasher height zero f =
    root_of_ext hasher height _ f (λ i lt. ap f (omega arith))
    ∙ ap (λ (t : ℕ). root_of hasher t f) (sym (add-zero height))
root_of-root_of hasher height (suc sub) f =
    root_of_ext hasher height _ _ (λ i lt. root_of_ext hasher sub _ _ (λ j lt'.
      ap₂ hasher (ap f (omega (arith, ap (λ (t : ℕ). i * t) (pow-suc 2 sub))))
        (ap f (omega (arith, ap (λ (t : ℕ). i * t) (pow-suc 2 sub))))))
    ∙ root_of-root_of hasher height sub (level_up hasher f)
    ∙ ap (λ (t : ℕ). root_of hasher t f) (sym (add-suc height sub))

-- Over zeros the root is zero, if the hash of two zeros is.
pub root_of_zeros :
    (hasher : ℕ → ℕ → ℕ) (height : ℕ) (f : ℕ → ℕ)
    → hasher 0 0 ≡ 0
    → ((i : ℕ) → f i ≡ 0)
    → root_of hasher height f ≡ 0
unfolding root_of
root_of_zeros hasher zero f z h = h 0
root_of_zeros hasher (suc height) f z h =
    root_of_zeros hasher height (level_up hasher f) z
      (λ i. ap₂ hasher (h (2 * i)) (h (2 * i + 1)) ∙ z)
