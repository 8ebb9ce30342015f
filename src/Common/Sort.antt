-- ===== src/Common/Sort.antt =====
-- The stable sort of Rust's `sort_by` and `sort_by_key`, as an insertion sort: the order `le` says
-- that its first argument may stand before its second.
use Prim.Native.Nat.{ℕ, zero, suc, ◌≤◌, ◌<◌}
use mathlib.Core.Path.{◌≡◌, refl, ap, ◌∙◌}
use mathlib.Core.Bool.{Bool}
use mathlib.Core.List.{List, [], ◌∷◌, Perm}
use mathlib.Core.List.Perm
use native.Mathlib.Omega.{arith}
use nightfall_4_ce.Common.Tests.{if◌then◌else◌, leb, Bool-cases}
use nightfall_4_ce.Common.Lists.{length, get_or}
use mathlib.Core.Logic.{inl, inr}

module _ {ℓ} {A : Type ℓ} (le : A → A → Bool) where
  -- After the elements that stand before it, and after no other of the same rank.
  unfoldable pub insert_sorted : A → List A → List A
  insert_sorted a [] = a ∷ []
  insert_sorted a (b ∷ bs) = if le a b then a ∷ b ∷ bs else b ∷ insert_sorted a bs

  unfoldable pub sort : List A → List A
  unfolding insert_sorted
  sort [] = []
  sort (a ∷ xs) = insert_sorted a (sort xs)

  pub insert_sorted-perm : (a : A) (bs : List A) → Perm (insert_sorted a bs) (a ∷ bs)
  unfolding insert_sorted
  insert_sorted-perm a [] = Perm.refl (a ∷ [])
  insert_sorted-perm a (b ∷ bs) = elim (Bool-cases (le a b)) [
    | inl first ↦ rw first (Perm.refl (a ∷ b ∷ bs))
    | inr later ↦ rw later (Perm.trans (Perm.cons b (insert_sorted-perm a bs)) (Perm.swap a b bs))
  ]

  pub sort-perm : (xs : List A) → Perm (sort xs) xs
  unfolding sort
  sort-perm [] = Perm.refl []
  sort-perm (a ∷ xs) = Perm.trans (insert_sorted-perm a (sort xs)) (Perm.cons a (sort-perm xs))

  pub length-insert_sorted : (a : A) (bs : List A) → length (insert_sorted a bs) ≡ suc (length bs)
  unfolding insert_sorted
  length-insert_sorted a [] = refl
  length-insert_sorted a (b ∷ bs) = elim (Bool-cases (le a b)) [
    | inl first ↦ rw first refl
    | inr later ↦ rw later (ap suc (length-insert_sorted a bs))
  ]

  pub length-sort : (xs : List A) → length (sort xs) ≡ length xs
  unfolding sort
  length-sort [] = refl
  length-sort (a ∷ xs) = length-insert_sorted a (sort xs) ∙ ap suc (length-sort xs)

-- Sorted by a number, smallest first: every element is at most all that follow it.
module _ {ℓ} {A : Type ℓ} (key : A → ℕ) where
  abbrev pub AllAbove : ℕ → List A → Type 0
  AllAbove n [] = Unit
  AllAbove n (a ∷ xs) = (n ≤ key a) × AllAbove n xs

  abbrev pub IsSorted : List A → Type 0
  IsSorted [] = Unit
  IsSorted (a ∷ xs) = AllAbove (key a) xs × IsSorted xs

  abbrev pub by_key : A → A → Bool
  by_key a b = leb (key a) (key b)

  AllAbove-le : (m n : ℕ) (xs : List A) → m ≤ n → AllAbove n xs → AllAbove m xs
  AllAbove-le m n [] h all = tt
  AllAbove-le m n (a ∷ xs) h all = (omega arith, AllAbove-le m n xs h all.1)

  AllAbove-insert_sorted :
      (n : ℕ) (a : A) (bs : List A)
      → n ≤ key a
      → AllAbove n bs
      → AllAbove n (insert_sorted by_key a bs)
  unfolding insert_sorted
  AllAbove-insert_sorted n a [] h all = (h, tt)
  AllAbove-insert_sorted n a (b ∷ bs) h all = ground (arith, AllAbove-insert_sorted n a bs h all.1)

  insert_sorted-IsSorted :
      (a : A) (bs : List A) → IsSorted bs → IsSorted (insert_sorted by_key a bs)
  unfolding insert_sorted
  insert_sorted-IsSorted a [] s = (tt, tt)
  insert_sorted-IsSorted a (b ∷ bs) s = ground (
    arith,
    insert_sorted-IsSorted a bs s.1,
    AllAbove-insert_sorted (key b) a bs,
    AllAbove-le (key a) (key b) bs,
  )

  pub sort-IsSorted : (xs : List A) → IsSorted (sort by_key xs)
  unfolding sort
  sort-IsSorted [] = tt
  sort-IsSorted (a ∷ xs) = insert_sorted-IsSorted a (sort by_key xs) (sort-IsSorted xs)

  -- In a sorted list an earlier position has the smaller number.
  AllAbove-get_or :
      (n : ℕ) (xs : List A) (d : A) (i : ℕ)
      → AllAbove n xs
      → i < length xs
      → n ≤ key (get_or xs i d)
  AllAbove-get_or n [] d i all h = elim h [ ]
  AllAbove-get_or n (a ∷ xs) d zero all h = all.0
  AllAbove-get_or n (a ∷ xs) d (suc i) all h = AllAbove-get_or n xs d i all.1 (omega arith)

  pub IsSorted-get_or :
      (xs : List A) (d : A) (i j : ℕ)
      → IsSorted xs
      → i ≤ j
      → j < length xs
      → key (get_or xs i d) ≤ key (get_or xs j d)
  IsSorted-get_or [] d i j s le lt = elim lt [ ]
  IsSorted-get_or (a ∷ xs) d zero zero s le lt = omega arith
  IsSorted-get_or (a ∷ xs) d zero (suc j) s le lt = AllAbove-get_or (key a) xs d j s.0 (omega arith)
  IsSorted-get_or (a ∷ xs) d (suc i) zero s le lt = absurd (omega arith)
  IsSorted-get_or (a ∷ xs) d (suc i) (suc j) s le lt =
      IsSorted-get_or xs d i j s.1 (omega arith) (omega arith)
