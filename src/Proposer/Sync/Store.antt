-- ===== src/Proposer/Sync/Store.antt =====
-- The stored blocks, `BlockStorageDB` of `nightfall_proposer/src/driven/db/mongo_db.rs`. The hex texts of
-- the commitments are the field elements that they print.
use nightfall_4_ce.Common.{
  ℕ, ◌≡◌, ◌≢◌, refl, arith, List, [], ◌∷◌, Option, none, some, ◌==◌, if◌then◌else◌, Bool-cases, inl,
  inr, ◌⊎◌, trichotomy,
}
use nightfall_4_ce.Field.{Fr254}

pub record StoredBlock : Type 0 where
  pub layer2_block_number : ℕ
  pub commitments : List Fr254
  pub proposer_address : ℕ

unfoldable pub get_block_by_number : ℕ → List StoredBlock → Option StoredBlock
get_block_by_number n [] = none
get_block_by_number n (b ∷ bs) =
    if b.layer2_block_number == n then some b else get_block_by_number n bs

-- `update_one` with the commitments alone, where the number is stored already; else `insert_one`.
unfoldable pub store_block : StoredBlock → List StoredBlock → List StoredBlock
store_block block [] = block ∷ []
store_block block (b ∷ bs) =
    if b.layer2_block_number == block.layer2_block_number
    then record b { commitments = block.commitments } ∷ bs
    else b ∷ store_block block bs

-- `delete_one`.
unfoldable pub delete_block_by_number : ℕ → List StoredBlock → List StoredBlock
delete_block_by_number n [] = []
delete_block_by_number n (b ∷ bs) =
    if b.layer2_block_number == n then bs else b ∷ delete_block_by_number n bs

-- No number is stored twice.
abbrev pub Distinct : List StoredBlock → Type 0
Distinct [] = Unit
Distinct (b ∷ bs) = (get_block_by_number b.layer2_block_number bs ≡ none) × Distinct bs

-- A stored block is found under its number with its commitments; its proposer is the one that was
-- stored first.
pub get_block_by_number-store_block :
    (block : StoredBlock) (bs : List StoredBlock) (n : ℕ)
    → n ≢ block.layer2_block_number
    → get_block_by_number n (store_block block bs) ≡ get_block_by_number n bs
unfolding get_block_by_number store_block
get_block_by_number-store_block block [] n h = ground arith
get_block_by_number-store_block block (b ∷ bs) n h =
    ground (arith, get_block_by_number-store_block block bs n h)

pub store_block_found :
    (block : StoredBlock) (bs : List StoredBlock)
    → (b : StoredBlock) × (get_block_by_number block.layer2_block_number (store_block block bs)
        ≡ some b)
      × (b.commitments ≡ block.commitments)
unfolding get_block_by_number store_block
store_block_found block [] = (block, ground arith, refl)
store_block_found block (b ∷ bs) =
    elim (Bool-cases (b.layer2_block_number == block.layer2_block_number)) [
      | inl same ↦
          (record b { commitments = block.commitments }, rw (same, get_block_by_number, same), refl)
      | inr other ↦
          let (found, e, same) = store_block_found block bs in
          (found, rw (other, get_block_by_number, other) e, same)
    ]

-- What is stored under the number of a block: the block, or the one that was there with its commitments.
get_block_by_number-stored :
    (block : StoredBlock) (bs : List StoredBlock)
    → ((get_block_by_number block.layer2_block_number bs ≡ none)
        × (get_block_by_number block.layer2_block_number (store_block block bs) ≡ some block))
      ⊎ ((old : StoredBlock) × (get_block_by_number block.layer2_block_number bs ≡ some old)
          × (get_block_by_number block.layer2_block_number (store_block block bs)
              ≡ some (record old { commitments = block.commitments })))
unfolding get_block_by_number store_block
get_block_by_number-stored block [] = inl (refl, ground arith)
get_block_by_number-stored block (b ∷ bs) =
    elim (Bool-cases (b.layer2_block_number == block.layer2_block_number)) [
      | inl same ↦
          inr (b, rw (get_block_by_number, same) refl, rw (same, get_block_by_number, same) refl)
      | inr other ↦ elim (get_block_by_number-stored block bs) [
        | inl (fresh, stored) ↦
            inl
              (rw (get_block_by_number, other) fresh, rw (other, get_block_by_number, other) stored)
        | inr (old, found, stored) ↦ inr (
          old,
          rw (get_block_by_number, other) found,
          rw (other, get_block_by_number, other) stored,
        )
      ]
    ]

-- The block is found under its number, with the data of the one that was there; every other number finds
-- what it found in `blocks`.
abbrev pub IsStored : StoredBlock → List StoredBlock → List StoredBlock → Type 0
IsStored pending blocks after =
    (((get_block_by_number pending.layer2_block_number blocks ≡ none)
        × (get_block_by_number pending.layer2_block_number after ≡ some pending))
      ⊎ ((old : StoredBlock) × (get_block_by_number pending.layer2_block_number blocks ≡ some old)
          × (get_block_by_number pending.layer2_block_number after
              ≡ some (record old { commitments = pending.commitments }))))
    × ((k : ℕ)
        → (k ≡ pending.layer2_block_number)
          ⊎ (get_block_by_number k after ≡ get_block_by_number k blocks))

pub store_block-IsStored :
    (pending : StoredBlock) (blocks : List StoredBlock)
    → IsStored pending blocks (store_block pending blocks)
store_block-IsStored pending blocks = (
  get_block_by_number-stored pending blocks,
  λ k. elim (trichotomy k pending.layer2_block_number) [
    | inl less ↦
        inr (get_block_by_number-store_block pending blocks k (λ e. omega (arith, less, e)))
    | inr (inl more) ↦
        inr (get_block_by_number-store_block pending blocks k (λ e. omega (arith, more, e)))
    | inr (inr same) ↦ inl same
  ],
)

pub delete_block_gone :
    (n : ℕ) (bs : List StoredBlock)
    → Distinct bs
    → get_block_by_number n (delete_block_by_number n bs) ≡ none
unfolding get_block_by_number delete_block_by_number
delete_block_gone n [] d = refl
delete_block_gone n (b ∷ bs) d = ground (arith, delete_block_gone n bs d.1)
