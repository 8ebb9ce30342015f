-- ===== src/Tests/Client.antt =====
-- The client's commitments, their selection and the conversions at concrete inputs.
use nightfall_4_ce.Common.{
  ℕ, zero, suc, ◌+◌, ◌-◌, ◌*◌, ◌^◌, ◌<◌, ◌≤◌, ◌≡◌, refl, arith, List, [], ◌∷◌, Option, none, some,
  ◌⊎◌, ok, err,
}
use nightfall_4_ce.Common.Sort.{sort, IsSorted-get_or}
use nightfall_4_ce.Field.{Fr254, ◌+F◌, modulus, modulus_minus_one_div_two}
use nightfall_4_ce.Client.Entities.Defs.{Preimage, Point, unspent, transfer_salt, hash_preimage}
use nightfall_4_ce.Client.Selection.Defs.{
  calculate_minimum_commitments, select_commitment, find_subset_commitments, values_below, total_of,
  two_pointers, find_subset_two_commitments, get_value,
}
use nightfall_4_ce.Client.Selection.Pairs.{BestPair, value_at, find_subset_two_commitments-BestPair}
use nightfall_4_ce.Client.Commitments.Store.{
  CommitmentEntry, is_unspent, find_available, is_in, find_usable_commitments,
}
use nightfall_4_ce.Client.Commitments.Laws.{remove_if, find_usable_commitments_lem}
use nightfall_4_ce.Conversions.Defs.{overflow, fr_of_u256, u256_of_fr, addr_of_fr}
use nightfall_4_ce.Conversions.Laws.{fr_of_u256_lem, addr_of_fr_wide}

abbrev origin : Point
origin = record { x = 0; y = 1 }

-- A commitment of the token 9.
abbrev coin : ℕ → Preimage
coin v = record {
  value = v;
  nf_token_id = 9;
  nf_slot_id = 9;
  public_key = origin;
  salt = transfer_salt v;
}

abbrev coins : List Preimage
coins = coin 1 ∷ coin 2 ∷ coin 4 ∷ []

coins_sorted : (i j : ℕ) → i ≤ j → j < 3 → value_at origin 5 coins i ≤ value_at origin 5 coins j
coins_sorted i j le lt =
    IsSorted-get_or get_value coins _ i j
      ((omega arith, (omega arith, tt)), ((omega arith, tt), (tt, tt))) le lt

coins_small : (i : ℕ) → i < 3 → 2 * value_at origin 5 coins i < modulus_minus_one_div_two
coins_small zero h = omega arith
coins_small (suc zero) h = omega arith
coins_small (suc (suc zero)) h = omega arith
coins_small (suc (suc (suc i))) h = absurd (omega arith)

find_subset_two_commitments-BestPair_example :
    BestPair origin 5 coins (find_subset_two_commitments origin 5 coins)
find_subset_two_commitments-BestPair_example =
    find_subset_two_commitments-BestPair origin 5 coins coins_sorted coins_small (omega arith)

-- A hash that tells short lists of small numbers apart.
abbrev digest : List Fr254 → Option Fr254
digest [] = some 1
digest (x ∷ xs) = elim (digest xs) [ none ↦ none | some d ↦ some (x + 10 * d) ]

abbrev entry : ℕ → ℕ → CommitmentEntry
entry v k = record {
  preimage = coin v;
  status = unspent;
  key = k;
  nullifier = k + 1;
  layer_1_transaction_hash = none;
  layer_2_block_number = none;
}

abbrev wallet : List CommitmentEntry
wallet = entry 1 1110199 ∷ entry 2 1210299 ∷ entry 4 1410499 ∷ []

find_usable_commitments_lem_example :
    (key_a : Fr254) × (key_b : Fr254) × (hash_preimage digest (coin 1) ≡ some key_a)
    × (hash_preimage digest (coin 4) ≡ some key_b)
    × ((other : Fr254)
        → find_available other (find_usable_commitments digest origin 9 5 wallet).1
          ≡ remove_if
              (λ (c : CommitmentEntry). is_in c.key (key_a ∷ key_b ∷ []))
              (find_available other wallet))
unfolding find_usable_commitments is_unspent calculate_minimum_commitments sort ◌+F◌
    select_commitment find_subset_commitments values_below total_of two_pointers hash_preimage
find_usable_commitments_lem_example =
    find_usable_commitments_lem digest origin 9 5 wallet (coin 1) (coin 4) refl

fr_of_u256_lem_example :
    (fr_of_u256 (u256_of_fr 5) ≡ ok 5)
    × ((modulus < modulus) × (fr_of_u256 modulus ≡ err overflow)
        ⊎ ((modulus < modulus) × (fr_of_u256 modulus ≡ ok modulus)
            ⊎ (modulus ≡ modulus) × (fr_of_u256 modulus ≡ ok 0)))
fr_of_u256_lem_example = fr_of_u256_lem 5 modulus (omega arith)

addr_of_fr_wide_example :
    (2 ^ 160 + 5 < 2 ^ 161) × (addr_of_fr (2 ^ 160 + 5) ≡ ok (2 ^ 160 + 5 - 2 ^ 160))
    ⊎ (2 ^ 161 ≤ 2 ^ 160 + 5) × (addr_of_fr (2 ^ 160 + 5) ≡ err overflow)
addr_of_fr_wide_example = addr_of_fr_wide (2 ^ 160 + 5) (omega arith)
