-- ===== src/Client/Commitments/Store.antt =====
-- `CommitmentDB` of `nightfall_client/src/driven/db/mongo.rs`: the collection of commitments as a list of
-- its entries, where `_id` is the key and an update changes the matching entries. Field elements stand
-- for their hex texts. Beside it stand the functions of
-- `nightfall_client/src/services/commitment_selection.rs` that use the collection.
use nightfall_4_ce.Common.{
  ℕ, Bool, true, false, ◌&&◌, ◌||◌, not, List, [], ◌∷◌, ◌++◌, map, Option, none, some, ltb, ◌==◌,
  if◌then◌else◌, length, Result, ok, err, ◌>>=◌, ok_or,
}
use nightfall_4_ce.Common.Sort.{sort, by_key}
use nightfall_4_ce.Field.{Fr254, ◌+F◌}
use nightfall_4_ce.Client.Entities.Defs.{
  Preimage, Point, CommitmentStatus, pending_spend, spent, pending_creation, unspent, hash_preimage,
}
use nightfall_4_ce.Client.Selection.Defs.{
  SelectionError, preimage_hashing_failed, no_commitments, too_many_dust, max_possible_commitments,
  get_value, select_commitment, calculate_minimum_commitments,
}

pub record CommitmentEntry : Type 0 where
  pub preimage : Preimage
  pub status : CommitmentStatus
  pub key : Fr254
  pub nullifier : Fr254
  pub layer_1_transaction_hash : Option ℕ
  pub layer_2_block_number : Option ℕ

unfoldable pub is_unspent : CommitmentStatus → Bool
is_unspent s = elim s [ unspent ↦ true | _ ↦ false ]

-- `$in`.
unfoldable pub is_in : Fr254 → List Fr254 → Bool
is_in x [] = false
is_in x (y ∷ ys) = x == y || is_in x ys

unfoldable pub find_available : Fr254 → List CommitmentEntry → List CommitmentEntry
find_available token [] = []
find_available token (c ∷ cs) =
    let rest = find_available token cs in
    if c.preimage.nf_token_id == token && is_unspent c.status then c ∷ rest else rest

unfoldable pub get_available_commitments :
    Fr254 → List CommitmentEntry → Option (List CommitmentEntry)
unfolding find_available
get_available_commitments token db = elim (find_available token db) [
  | [] ↦ none
  | c ∷ cs ↦ some (c ∷ cs)
]

unfoldable pub get_commitment : Fr254 → List CommitmentEntry → Option CommitmentEntry
get_commitment k [] = none
get_commitment k (c ∷ cs) = let rest = get_commitment k cs in if c.key == k then some c else rest

unfoldable pub sum_values : List CommitmentEntry → Fr254
sum_values [] = 0
sum_values (c ∷ cs) = c.preimage.value +F sum_values cs

unfoldable pub get_balance : Fr254 → List CommitmentEntry → Option Fr254
unfolding find_available sum_values
get_balance token db = elim (find_available token db) [
  | [] ↦ none
  | c ∷ cs ↦ some (sum_values (c ∷ cs))
]

-- The marks: by key, except that spent commitments are found by their nullifiers.
unfoldable pub mark_commitments_pending_spend :
    List Fr254 → List CommitmentEntry → List CommitmentEntry
mark_commitments_pending_spend keys =
    map
      (λ (c : CommitmentEntry). if is_in c.key keys then record c { status = pending_spend } else c)

unfoldable pub mark_commitments_pending_creation :
    List Fr254 → List CommitmentEntry → List CommitmentEntry
mark_commitments_pending_creation keys = map (λ (c : CommitmentEntry).
    if is_in c.key keys then record c { status = pending_creation } else c)

unfoldable pub mark_commitments_spent : List Fr254 → List CommitmentEntry → List CommitmentEntry
mark_commitments_spent nullifiers = map (λ (c : CommitmentEntry).
    if is_in c.nullifier nullifiers then record c { status = spent } else c)

unfoldable pub mark_commitments_unspent :
    List Fr254 → Option ℕ → List CommitmentEntry → List CommitmentEntry
mark_commitments_unspent keys l1_hash = map (λ (c : CommitmentEntry).
    if is_in c.key keys
    then record c { status = unspent; layer_1_transaction_hash = l1_hash }
    else c)

-- The first entry with the key; keys are distinct.
unfoldable pub add_nullifier : Fr254 → Fr254 → List CommitmentEntry → List CommitmentEntry
add_nullifier k n [] = []
add_nullifier k n (c ∷ cs) =
    let rest = add_nullifier k n cs in
    if c.key == k then record c { nullifier = n } ∷ cs else c ∷ rest

-- A second entry with a key is refused.
unfoldable pub store_commitment :
    CommitmentEntry → List CommitmentEntry → Option (List CommitmentEntry)
unfolding get_commitment
store_commitment c db = elim (get_commitment c.key db) [
  | none ↦ some (db ++ c ∷ [])
  | some _ ↦ none
]

-- `insert_many` in order: the first refused entry ends the insertion; the flag says if it did.
unfoldable pub insert_many :
    List CommitmentEntry → List CommitmentEntry → Bool × List CommitmentEntry
unfolding store_commitment
insert_many [] db = (true, db)
insert_many (c ∷ cs) db = elim (store_commitment c db) [
  | none ↦ (false, db)
  | some db' ↦ insert_many cs db'
]

-- A refused key is no error without the check.
unfoldable pub store_commitments :
    List CommitmentEntry → Bool → List CommitmentEntry → Option (Unit {0}) × List CommitmentEntry
unfolding insert_many
store_commitments cs dup_key_check db =
    let (complete, db') = insert_many cs db in
    (if complete || not dup_key_check then some tt else none, db')

module _ (hash : List Fr254 → Option Fr254) (point : Point) where
  -- A hash error of the preimage is a panic, `none`.
  unfoldable pub new_entry : Preimage → Fr254 → CommitmentStatus → Option CommitmentEntry
  new_entry p nullifier status = elim (hash_preimage hash p) [
    | none ↦ none
    | some key ↦ some (record {
      preimage = p;
      status = status;
      key = key;
      nullifier = nullifier;
      layer_1_transaction_hash = none;
      layer_2_block_number = none;
    })
  ]

  unfoldable pub fetch_on_chain_commitments :
      Fr254 → List CommitmentEntry → Result SelectionError (List Preimage)
  unfolding get_available_commitments
  fetch_on_chain_commitments token db =
      ok_or (get_available_commitments token db) no_commitments >>= λ cs.
      ok (map (λ (c : CommitmentEntry). c.preimage) cs)

  unfoldable pub verify_enough_commitments :
      Fr254 → Fr254 → List CommitmentEntry → Result SelectionError (List Preimage × ℕ)
  unfolding fetch_on_chain_commitments
  verify_enough_commitments token target db = fetch_on_chain_commitments token db >>= λ available.
      calculate_minimum_commitments (sort (by_key get_value) available) target >>= λ min_c.
      if ltb max_possible_commitments min_c
      then err too_many_dust
      else ok (sort (by_key get_value) available, min_c)

  unfoldable pub usable :
      Fr254 → Fr254 → List CommitmentEntry → Result SelectionError (Preimage × Preimage)
  unfolding verify_enough_commitments
  usable token target db = verify_enough_commitments token target db >>= λ found.
      select_commitment point found.0 target found.1 (
        if ltb (length found.0) max_possible_commitments
        then length found.0
        else max_possible_commitments)

  -- The chosen commitments are marked as pending by their hashes.
  unfoldable pub find_usable_commitments :
      Fr254
      → Fr254
      → List CommitmentEntry
      → Result SelectionError (Preimage × Preimage) × List CommitmentEntry
  unfolding usable mark_commitments_pending_spend
  find_usable_commitments token target db = elim (usable token target db) [
    | err e ↦ (err e, db)
    | ok (a, b) ↦ elim (hash_preimage hash a) [
      | none ↦ (err preimage_hashing_failed, db)
      | some key_a ↦ elim (hash_preimage hash b) [
        | none ↦ (err preimage_hashing_failed, db)
        | some key_b ↦ (ok (a, b), mark_commitments_pending_spend (key_a ∷ key_b ∷ []) db)
      ]
    ]
  ]
