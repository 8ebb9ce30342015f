-- ===== src/Proposer/Assembly/Block.antt =====
-- `prepare_block_data` and `make_block` of `nightfall_proposer/src/services/assemble_block.rs`.
use nightfall_4_ce.Common.{
  ℕ, ◌+◌, ◌-◌, Bool, true, false, ◌&&◌, List, [], ◌∷◌, ◌++◌, Option, none, some, ltb, ◌==◌,
  if◌then◌else◌, length, replicate, Result, ok, err, ◌>>=◌,
}
use nightfall_4_ce.Field.{Fr254}
use nightfall_4_ce.Proposer.Assembly.Mempool.{
  DepositData, DepositDatawithFee, default_deposit_data, ClientTransactionWithMetaData, Mempool,
  get_mempool_deposits, get_all_mempool_client_transactions, remove_mempool_deposits,
  set_in_mempool,
}
use nightfall_4_ce.Proposer.Assembly.Defs.{
  BlockAssemblyError, insufficient_transactions, proving_error, panicked,
  transactions_to_include_in_block, or_empty, get_block_size, all_commitments_onchain, is_pending,
  partition, partition_deposits, choose,
}

abbrev pub Prepared : Type 0
Prepared =
    Result BlockAssemblyError (List (List DepositDatawithFee) × List ClientTransactionWithMetaData)
    × Mempool

unfoldable pub values {ℓ} : {K V : Type ℓ} → List (K × V) → List V
values [] = []
values ((k, v) ∷ kvs) = v ∷ values kvs

unfoldable pub is_empty {ℓ} : {A : Type ℓ} → List A → Bool
is_empty [] = true
is_empty (x ∷ xs) = false

-- What is on the chain already leaves the mempool.
unfoldable pub clean :
    List DepositDatawithFee → List ClientTransactionWithMetaData → Mempool → Mempool
unfolding is_empty remove_mempool_deposits set_in_mempool
clean stale_deposits stale_txs m =
    let m' =
      if is_empty stale_deposits then m else remove_mempool_deposits (stale_deposits ∷ []) m in
    if is_empty stale_txs then m' else set_in_mempool stale_txs false m'

module _ (hash : List Fr254 → Option Fr254) where
  -- The argument is the block size of the settings.
  unfoldable pub prepare_block_data : ℕ → Mempool → Prepared
  unfolding get_block_size get_mempool_deposits get_all_mempool_client_transactions
      transactions_to_include_in_block or_empty all_commitments_onchain is_pending partition
      partition_deposits clean choose values is_empty
  prepare_block_data setting m = elim (get_block_size setting) [
    | err e ↦ (err e, m)
    | ok block_size ↦
        let onchain = all_commitments_onchain m.blocks in
        let txs =
          values (transactions_to_include_in_block (get_all_mempool_client_transactions m)) in
        let (pending_txs, stale_txs) = partition (is_pending onchain) txs in
        elim (partition_deposits hash onchain (or_empty (get_mempool_deposits m))) [
          | none ↦ (err panicked, m)
          | some (pending_deposits, stale_deposits) ↦
              if is_empty pending_deposits && is_empty pending_txs
              then (err insufficient_transactions, clean stale_deposits stale_txs m)
              else choose block_size pending_deposits pending_txs (clean stale_deposits stale_txs m)
        ]
  ]

-- The prover: the proof of four deposits, and the proof of a block.
module _ {P Block : Type 0} (create_deposit_proof : List DepositData → Option P)
    (prove_block : List P → List ClientTransactionWithMetaData → Option Block) where
  -- A group that has not four deposits does not convert into the prover's array.
  unfoldable pub deposit_proof : List DepositData → Result BlockAssemblyError P
  deposit_proof chunk =
      if length chunk == 4
      then elim (create_deposit_proof chunk) [ none ↦ err proving_error | some p ↦ ok p ]
      else err proving_error

  unfoldable pub deposit_proofs : List (List DepositData) → Result BlockAssemblyError (List P)
  unfolding deposit_proof
  deposit_proofs [] = ok []
  deposit_proofs (chunk ∷ chunks) =
      deposit_proof chunk >>= λ p. deposit_proofs chunks >>= λ ps. ok (p ∷ ps)

  -- Default proofs fill the block up.
  unfoldable pub fill : ℕ → List P → ℕ → Result BlockAssemblyError (List P)
  fill block_size proofs client_count =
      if ltb (length proofs + client_count) block_size
      then elim (create_deposit_proof (
          default_deposit_data ∷ default_deposit_data ∷ default_deposit_data ∷ default_deposit_data
          ∷ [])) [
            | none ↦ err proving_error
            | some p ↦ ok (proofs ++ replicate (block_size - (length proofs + client_count)) p)
          ]
      else ok proofs

  unfoldable pub compute_block :
      List P → List ClientTransactionWithMetaData → Result BlockAssemblyError Block
  compute_block proofs txs = elim (prove_block proofs txs) [
    | none ↦ err proving_error
    | some b ↦ ok b
  ]

  unfoldable pub make_block :
      ℕ
      → List (List DepositData)
      → List ClientTransactionWithMetaData
      → Result BlockAssemblyError Block
  unfolding deposit_proofs fill compute_block get_block_size
  make_block setting deposits txs = deposit_proofs deposits >>= λ proofs.
      get_block_size setting >>= λ block_size.
      fill block_size proofs (length txs) >>= λ all. compute_block all txs
