-- ===== src/Tests/Assembly.antt =====
-- The assembly of a block whose proof fails, at a concrete input.
use nightfall_4_ce.Common.{ℕ, ◌≡◌, refl, List, [], Option, none, err}
use nightfall_4_ce.Common.Sort.{sort}
use nightfall_4_ce.Field.{Fr254}
use nightfall_4_ce.Proposer.Assembly.Mempool.{ClientTransactionWithMetaData}
use nightfall_4_ce.Proposer.Assembly.Defs.{proving_error}
use nightfall_4_ce.Proposer.Assembly.Block.{prepare_block_data, make_block}
use nightfall_4_ce.Proposer.Assembly.Laws.{included_deposits}
use nightfall_4_ce.Proposer.Assembly.Assemble.{assemble_block}
use nightfall_4_ce.Proposer.Assembly.Lost.{IsGone, assemble_block-IsGone}
use nightfall_4_ce.Tests.Proposer.{first_input, mempool, one_group, prove_deposits}

-- A prover that fails.
abbrev prove_nothing : List ℕ → List ClientTransactionWithMetaData → Option ℕ
prove_nothing ps txs = none

abbrev no_commitments : ℕ → List (List Fr254)
no_commitments block = []

assemble_block-IsGone_example :
    ((assemble_block first_input prove_deposits prove_nothing no_commitments 1 64 mempool).0
      ≡ err proving_error)
    × IsGone one_group []
        (assemble_block first_input prove_deposits prove_nothing no_commitments 1 64 mempool).1
unfolding prepare_block_data sort make_block included_deposits
assemble_block-IsGone_example =
    assemble_block-IsGone first_input prove_deposits prove_nothing no_commitments 1 64 mempool
      one_group [] proving_error refl refl
