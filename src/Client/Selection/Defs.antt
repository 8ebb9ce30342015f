-- ===== src/Client/Selection/Defs.antt =====
-- The selection of commitments to spend, `nightfall_client/src/services/commitment_selection.rs`,
-- on field elements that wrap at the modulus. `point` is the default point of the curve library.

use nightfall_4_ce.Common.{
  ℕ, zero, suc, ◌+◌, ◌-◌, Bool, ◌&&◌, ◌||◌, not, List, [], ◌∷◌, ◌++◌, Option, none, some, ltb, leb,
  ◌==◌, if◌then◌else◌, length, get_or, take, Result, ok, err, ◌>>=◌, ok_or,
}
use mathlib.Core.List.{reverse, foldl}
use nightfall_4_ce.Common.Sort.{sort, by_key}
use nightfall_4_ce.Field.{Fr254, ◌+F◌, ◌-F◌, modulus_minus_one_div_two}
use nightfall_4_ce.Client.Entities.Defs.{Preimage, Point, default_preimage}

abbrev pub max_possible_commitments : ℕ
max_possible_commitments = 2

-- The messages of the source, `&'static str`.
pub data SelectionError : Type 0 where
  preimage_hashing_failed no_valid_subsets no_array no_match : SelectionError
  not_enough_commitments no_commitments too_many_dust : SelectionError

abbrev pub get_value : Preimage → Fr254
get_value p = p.value

-- `iter().filter(|a| a.get_value() < target)` and `iter().find(|a| a.get_value() >= target)`.
unfoldable pub values_below : Fr254 → List Preimage → List Preimage
values_below target [] = []
values_below target (c ∷ cs) =
    if ltb c.value target then c ∷ values_below target cs else values_below target cs

unfoldable pub find_from : Fr254 → List Preimage → Option Preimage
find_from target [] = none
find_from target (c ∷ cs) = if leb target c.value then some c else find_from target cs

unfoldable pub total_of : List Preimage → Fr254
total_of cs = foldl (λ acc c. c.value +F acc) 0 cs

module _ (point : Point) where
  -- An index below the length; the loop reads no other.
  abbrev pub preimage_at : List Preimage → ℕ → Preimage
  preimage_at cs i = get_or cs i (default_preimage point)

  -- The `while lhs < rhs` loop, with the length of the list as fuel.
  unfoldable pub two_pointers :
      ℕ → Fr254 → List Preimage → ℕ → ℕ → Fr254 → List Preimage → List Preimage
  two_pointers zero target cs lhs rhs change chosen = chosen
  two_pointers (suc fuel) target cs lhs rhs change chosen =
      let pair = preimage_at cs lhs ∷ preimage_at cs rhs ∷ [] in
      let sum = (preimage_at cs lhs).value +F (preimage_at cs rhs).value in
      let closer = two_pointers fuel target cs lhs (rhs - 1) (sum -F target) pair in
      let lower = two_pointers fuel target cs lhs (rhs - 1) change chosen in
      let higher = two_pointers fuel target cs (lhs + 1) rhs change chosen in
      if not (ltb lhs rhs)
      then chosen
      else if sum == target
      then pair
      else if ltb target sum
      then (if ltb (sum -F target) change then closer else lower)
      else higher

  unfoldable pub find_subset_two_commitments : Fr254 → List Preimage → List Preimage
  find_subset_two_commitments target cs =
      two_pointers (length cs) target cs 0 (length cs - 1) modulus_minus_one_div_two []

  unfoldable pub find_subset_commitments :
      List Preimage → Fr254 → ℕ → List Preimage → Result SelectionError (List Preimage)
  unfolding find_subset_two_commitments
  find_subset_commitments commitments target n acc =
      let below = values_below target commitments in
      if leb (length below) 1 || n == 1
      then (ok_or (find_from target commitments) no_match >>= λ c. ok (acc ++ c ∷ []))
      else if n == 2 && ltb 1 (length below) && leb target (total_of below)
      then ok (acc ++ find_subset_two_commitments target below)
      else ok acc

  -- The change of a subset, and the order in which the subsets are sorted.
  unfoldable pub change_of : Fr254 → List Preimage → Fr254
  change_of target cs = foldl (λ acc c. acc +F c.value) 0 cs -F target

  unfoldable pub better : Fr254 → List Preimage → List Preimage → Bool
  unfolding change_of
  better target a b =
      if change_of target a == change_of target b
      then leb (length b) (length a)
      else ltb (change_of target a) (change_of target b)

  -- The rounds `i` to `MAX_POSSIBLE_COMMITMENTS` of the loop that collects the subsets.
  unfoldable pub collect_subsets :
      ℕ
      → ℕ
      → List Preimage
      → Fr254
      → List (List Preimage)
      → Result SelectionError (List (List Preimage))
  collect_subsets zero i commitments target subsets = ok subsets
  collect_subsets (suc rounds) i commitments target subsets =
      find_subset_commitments commitments target i [] >>= λ subset.
      collect_subsets rounds (i + 1) commitments target
        (if length subset == 0 then subsets else subsets ++ subset ∷ [])

  -- `res.resize(MAX_POSSIBLE_COMMITMENTS, Preimage::default())`, and then the array.
  unfoldable pub to_array : List Preimage → Result SelectionError (Preimage × Preimage)
  to_array [] = ok (default_preimage point, default_preimage point)
  to_array (a ∷ []) = ok (a, default_preimage point)
  to_array (a ∷ b ∷ _) = ok (a, b)

  unfoldable pub first_subset : List (List Preimage) → Result SelectionError (Preimage × Preimage)
  unfolding to_array
  first_subset [] = err no_valid_subsets
  first_subset (best ∷ _) = to_array best

  unfoldable pub subsets_of :
      List Preimage → Fr254 → ℕ → ℕ → Result SelectionError (List (List Preimage))
  unfolding collect_subsets
  subsets_of commitments target min max =
      if min == max_possible_commitments || max == 1
      then (find_subset_commitments commitments target min [] >>= λ subset. ok (subset ∷ []))
      else collect_subsets (max_possible_commitments + 1 - min) min commitments target []

  unfoldable pub select_commitment :
      List Preimage → Fr254 → ℕ → ℕ → Result SelectionError (Preimage × Preimage)
  unfolding subsets_of first_subset
  select_commitment commitments target min max =
      subsets_of commitments target min max >>= λ subsets.
      first_subset (sort (better target) subsets)

-- The loop over the largest commitments.
unfoldable pub count_needed : List Preimage → Fr254 → Fr254 → ℕ → Result SelectionError ℕ
count_needed [] target sum count = err not_enough_commitments
count_needed (c ∷ cs) target sum count =
    let rest = count_needed cs target (sum +F c.value) (count + 1) in
    if leb target (sum +F c.value) then ok (count + 1) else rest

unfoldable pub calculate_minimum_commitments : List Preimage → Fr254 → Result SelectionError ℕ
unfolding count_needed
calculate_minimum_commitments commitments target =
    count_needed (take max_possible_commitments (reverse (sort (by_key get_value) commitments)))
      target 0 0
