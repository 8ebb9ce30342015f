-- ===== src/Proposer/Assembly/Assemble.antt =====
-- `assemble_block` of `nightfall_proposer/src/services/assemble_block.rs`. The commitments of a block's
-- transactions, whose type is the prover's, and our address are arguments.
use nightfall_4_ce.Common.{ℕ, List, [], ◌∷◌, ◌++◌, Option, Result, ok, err, length}
use nightfall_4_ce.Field.{Fr254}
use nightfall_4_ce.Proposer.Assembly.Mempool.{
  DepositData, ClientTransactionWithMetaData, Mempool, flatten,
}
use nightfall_4_ce.Proposer.Assembly.Defs.{BlockAssemblyError}
use nightfall_4_ce.Proposer.Assembly.Block.{Prepared, prepare_block_data, make_block}
use nightfall_4_ce.Proposer.Assembly.Laws.{included_deposits}

-- The block is stored with the number of stored blocks as its own.
unfoldable pub insert_block : List Fr254 → ℕ → Mempool → Mempool
insert_block commitments our_address m = record m {
  blocks =
      m.blocks
      ++ record {
        layer2_block_number = length m.blocks;
        commitments = commitments;
        proposer_address = our_address;
      }
        ∷ [];
}

module _ (hash : List Fr254 → Option Fr254) {P Block : Type 0}
    (create_deposit_proof : List DepositData → Option P)
    (prove_block : List P → List ClientTransactionWithMetaData → Option Block)
    (commitments_of : Block → List (List Fr254)) (our_address : ℕ) where
  unfoldable pub store_made :
      Result BlockAssemblyError Block → Mempool → Result BlockAssemblyError Block × Mempool
  unfolding insert_block
  store_made (err e) m = (err e, m)
  store_made (ok block) m = (ok block, insert_block (flatten (commitments_of block)) our_address m)

  unfoldable pub make_prepared : ℕ → Prepared → Result BlockAssemblyError Block × Mempool
  unfolding store_made
  make_prepared setting (err e, m) = (err e, m)
  make_prepared setting (ok (groups, txs), m) =
      store_made
        (make_block create_deposit_proof prove_block setting (included_deposits groups) txs) m

  -- The argument is the block size of the settings.
  unfoldable pub assemble_block : ℕ → Mempool → Result BlockAssemblyError Block × Mempool
  unfolding make_prepared
  assemble_block setting m = make_prepared setting (prepare_block_data hash setting m)
