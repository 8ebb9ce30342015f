-- ===== src/Proposer/Assembly/Defs.antt =====
-- `nightfall_proposer/src/services/assemble_block.rs`. Poseidon and the prover are parameters, where a
-- `none` is an error; the hex texts of commitments are the field elements that they print.
use nightfall_4_ce.Common.{
  ℕ, ◌-◌, Bool, false, ◌&&◌, ◌||◌, not, List, [], ◌∷◌, ◌++◌, map, Option, none, some, leb, ◌==◌,
  if◌then◌else◌, length, take, replicate, Result, ok, err,
}
use nightfall_4_ce.Common.Sort.{sort}
use nightfall_4_ce.Field.{Fr254, ◌+F◌}
use nightfall_4_ce.Proposer.Sync.Store.{StoredBlock}
use nightfall_4_ce.Proposer.Assembly.Mempool.{
  DepositDatawithFee, default_deposit, ClientTransactionWithMetaData, Mempool, any,
  remove_mempool_deposits, set_in_mempool,
}

pub data BlockAssemblyError : Type 0 where
  insufficient_transactions : BlockAssemblyError
  proving_error : BlockAssemblyError
  panicked : BlockAssemblyError

-- A candidate for the block: a group of deposits or a client transaction, and its fee.
pub record Candidate : Type 0 where
  pub deposit : Option (List DepositDatawithFee)
  pub client_tx : Option ClientTransactionWithMetaData
  pub fee : Fr254

unfoldable pub transactions_to_include_in_block {ℓ} :
    {K V : Type ℓ} → Option (List (K × V)) → List (K × V)
transactions_to_include_in_block none = []
transactions_to_include_in_block (some ts) = ts

-- `unwrap_or_default`.
unfoldable pub or_empty {ℓ} : {A : Type ℓ} → Option (List A) → List A
or_empty none = []
or_empty (some xs) = xs

unfoldable pub get_block_size : ℕ → Result BlockAssemblyError ℕ
get_block_size n = if n == 64 || n == 256 || n == 1024 then ok n else err proving_error

unfoldable pub all_commitments_onchain : List StoredBlock → List Fr254
all_commitments_onchain [] = []
all_commitments_onchain (b ∷ bs) = b.commitments ++ all_commitments_onchain bs

-- One turn of the loop over the deposits: a group that has four is closed.
unfoldable pub group_step :
    DepositDatawithFee
    → List (List DepositDatawithFee) × List DepositDatawithFee
    → List (List DepositDatawithFee) × List DepositDatawithFee
group_step d (groups, current) =
    if length (current ++ d ∷ []) == 4
    then (groups ++ (current ++ d ∷ []) ∷ [], [])
    else (groups, current ++ d ∷ [])

unfoldable pub group_loop :
    List DepositDatawithFee
    → List (List DepositDatawithFee) × List DepositDatawithFee
    → List (List DepositDatawithFee) × List DepositDatawithFee
unfolding group_step
group_loop [] acc = acc
group_loop (d ∷ ds) acc = group_loop ds (group_step d acc)

-- The last group is filled with default deposits.
unfoldable pub pad_group :
    List (List DepositDatawithFee) × List DepositDatawithFee → List (List DepositDatawithFee)
pad_group (groups, []) = groups
pad_group (groups, d ∷ ds) =
    groups ++ ((d ∷ ds) ++ replicate (4 - length (d ∷ ds)) default_deposit) ∷ []

unfoldable pub group_deposits : List DepositDatawithFee → List (List DepositDatawithFee)
unfolding group_loop pad_group
group_deposits ds = pad_group (group_loop ds ([], []))

unfoldable pub total_fee : List DepositDatawithFee → Fr254
total_fee [] = 0
total_fee (d ∷ ds) = d.fee +F total_fee ds

unfoldable pub deposit_candidate : List DepositDatawithFee → Candidate
unfolding total_fee
deposit_candidate group = record { deposit = some group; client_tx = none; fee = total_fee group }

unfoldable pub client_candidate : ClientTransactionWithMetaData → Candidate
client_candidate tx = record {
  deposit = none;
  client_tx = some tx;
  fee = tx.client_transaction.fee;
}

-- The orders of the two sorts, highest fee first.
unfoldable pub deposit_before : DepositDatawithFee → DepositDatawithFee → Bool
deposit_before d e = leb e.fee d.fee

unfoldable pub candidate_before : Candidate → Candidate → Bool
candidate_before a b = leb b.fee a.fee

unfoldable pub all_transactions :
    List DepositDatawithFee → List ClientTransactionWithMetaData → List Candidate
unfolding group_deposits deposit_candidate client_candidate deposit_before
all_transactions deposits txs =
    map deposit_candidate (group_deposits (sort deposit_before deposits))
    ++ map client_candidate txs

unfoldable pub select : ℕ → List Candidate → List Candidate
unfolding candidate_before
select block_size candidates = take block_size (sort candidate_before candidates)

unfoldable pub used_deposits_info : List Candidate → List (List DepositDatawithFee)
used_deposits_info [] = []
used_deposits_info (c ∷ cs) =
    let rest = used_deposits_info cs in elim c.deposit [ none ↦ rest | some group ↦ group ∷ rest ]

unfoldable pub selected_client_transactions : List Candidate → List ClientTransactionWithMetaData
selected_client_transactions [] = []
selected_client_transactions (c ∷ cs) =
    let rest = selected_client_transactions cs in
    elim c.client_tx [ none ↦ rest | some tx ↦ tx ∷ rest ]

-- A client transaction is pending while none of its commitments other than zero is on the chain.
unfoldable pub is_pending : List Fr254 → ClientTransactionWithMetaData → Bool
is_pending onchain tx =
    not (any (λ c. not (c == 0) && any (λ o. o == c) onchain) tx.client_transaction.commitments)

unfoldable pub partition {ℓ} : {A : Type ℓ} → (A → Bool) → List A → List A × List A
partition p [] = ([], [])
partition p (x ∷ xs) =
    let (kept, stale) = partition p xs in if p x then (x ∷ kept, stale) else (kept, x ∷ stale)

-- The selection, and what it takes out of the mempool.
unfoldable pub choose :
    ℕ
    → List DepositDatawithFee
    → List ClientTransactionWithMetaData
    → Mempool
    → Result BlockAssemblyError
        (List (List DepositDatawithFee) × List ClientTransactionWithMetaData)
      × Mempool
unfolding select used_deposits_info selected_client_transactions set_in_mempool
    remove_mempool_deposits all_transactions
choose block_size deposits txs m =
    let selected = select block_size (all_transactions deposits txs) in
    (
      ok (used_deposits_info selected, selected_client_transactions selected),
      set_in_mempool (selected_client_transactions selected) false
          (remove_mempool_deposits (used_deposits_info selected) m),
    )

module _ (hash : List Fr254 → Option Fr254) where
  unfoldable pub deposit_commitment : DepositDatawithFee → Option Fr254
  deposit_commitment d = hash (
      d.deposit_data.nf_token_id ∷ d.deposit_data.nf_slot_id ∷ d.deposit_data.value ∷ 0 ∷ 1
      ∷ d.deposit_data.secret_hash ∷ [])

  -- A hash error is a panic, `none`.
  unfoldable pub partition_deposits :
      List Fr254
      → List DepositDatawithFee
      → Option (List DepositDatawithFee × List DepositDatawithFee)
  unfolding deposit_commitment
  partition_deposits onchain [] = some ([], [])
  partition_deposits onchain (d ∷ ds) =
      let rest = partition_deposits onchain ds in
      elim (deposit_commitment d) [
        | none ↦ none
        | some c ↦ elim rest [
          | none ↦ none
          | some (kept, stale) ↦
              if any (λ o. o == c) onchain then some (kept, d ∷ stale) else some (d ∷ kept, stale)
        ]
      ]
