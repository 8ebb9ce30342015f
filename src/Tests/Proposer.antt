-- ===== src/Tests/Proposer.antt =====
-- The proposer's handling of a block and its choice of a block's content at concrete inputs.
use mathlib.Core.List.{Perm}
use nightfall_4_ce.Common.{
  ℕ, ◌+◌, ◌≤◌, ◌≡◌, refl, arith, List, [], ◌∷◌, ◌++◌, Option, none, some, ◌⊎◌, ok, err, length,
}
use nightfall_4_ce.Common.Sort.{sort}
use nightfall_4_ce.Field.{Fr254}
use nightfall_4_ce.Client.Entities.Defs.{synchronized, clear_synchronised}
use nightfall_4_ce.Conversions.Defs.{fr_of_u256, secrets_of_words}
use nightfall_4_ce.Proposer.Sync.Store.{StoredBlock, get_block_by_number, delete_block_by_number}
use nightfall_4_ce.Proposer.Sync.Defs.{
  block_hash_error, io_error, ChainBlock, Chain, TreeOps, State, to_field, signed_by,
  on_chain_transaction, decoded_commitments, on_trees, block_commitments, block_nullifiers,
  process_propose_block_event,
}
use nightfall_4_ce.Proposer.Sync.Steps.{pending_of}
use nightfall_4_ce.Proposer.Sync.Checks.{IsProcessed}
use nightfall_4_ce.Proposer.Sync.Laws.{IsReadable, process_expected, process_accepted}
use nightfall_4_ce.Proposer.Sync.Repeat.{process_redelivered, process_lost, process_forked}
use nightfall_4_ce.Proposer.Assembly.Mempool.{
  DepositData, DepositDatawithFee, default_deposit, ClientTransactionWithMetaData, Mempool,
}
use nightfall_4_ce.Proposer.Assembly.Defs.{Candidate, select}
use nightfall_4_ce.Proposer.Assembly.Block.{prepare_block_data, make_block, compute_block}
use nightfall_4_ce.Proposer.Assembly.Selected.{Dominates, select_lem}
use nightfall_4_ce.Proposer.Assembly.Laws.{included_deposits, make_block-full}

-- Trees that keep the list of what was put into them; their root is its length.
abbrev list_trees : TreeOps
list_trees = record {
  Trees = List Fr254;
  commitment_root = λ t. ok (length t);
  append_commitments = λ fs t. (ok tt, t ++ fs);
  insert_nullifiers = λ fs t. (ok tt, t);
  append_historic_root = λ f t. (ok tt, t);
}

abbrev proposer_of : StoredBlock → Fr254
proposer_of b = b.proposer_address

abbrev block : ChainBlock
block = record {
  commitments_root = 3;
  transactions =
      record {
        fee = 1;
        commitments = 11 ∷ 12 ∷ [];
        nullifiers = 13 ∷ [];
        public_data = record { word_0 = 1; word_1 = 2; word_2 = 3; word_3 = 4 };
      }
      ∷ [];
}

abbrev at_block : Option ℕ → Chain
at_block current = record { our_address = 1; sender_address = signed_by 2; current_block = current }

abbrev synced : State list_trees proposer_of
synced = record {
  expected = 4;
  sync = record { phase = synchronized };
  blocks = [];
  trees = 7 ∷ [];
}

block-IsReadable : (current : Option ℕ) → IsReadable (at_block current) block 2 (11 ∷ 12 ∷ [])
unfolding to_field on_chain_transaction decoded_commitments fr_of_u256 secrets_of_words
block-IsReadable current = (refl, refl)

process_expected_example :
    ((process_propose_block_event list_trees proposer_of
        (at_block (some 5))
        4
        block
        synced).1.expected
      ≡ 4)
    ⊎ ((synced.expected ≡ synced.expected)
        × ((process_propose_block_event list_trees proposer_of
              (at_block (some 5))
              4
              block
              synced).1.expected
            ≡ 4 + 1))
process_expected_example =
    process_expected list_trees proposer_of (at_block (some 5)) 4 block synced

accepted_block :
    (process_propose_block_event list_trees proposer_of (at_block (some 5)) 4 block synced).0
    ≡ ok tt
unfolding process_propose_block_event to_field block_commitments fr_of_u256 get_block_by_number
    block_nullifiers on_chain_transaction decoded_commitments secrets_of_words on_trees
accepted_block = refl

process_accepted_example :
    (current : ℕ) × (some 5 ≡ some current)
    × ((process_propose_block_event list_trees proposer_of
          (at_block (some 5))
          4
          block
          synced).1.expected
        ≡ 4 + 1)
    × IsProcessed list_trees proposer_of current 4
        (pending_of list_trees proposer_of 4 (11 ∷ 12 ∷ []) 2)
        []
        (process_propose_block_event list_trees proposer_of (at_block (some 5)) 4 block synced).1
process_accepted_example =
    process_accepted list_trees proposer_of (at_block (some 5)) block synced 2 (11 ∷ 12 ∷ [])
      (block-IsReadable (some 5)) accepted_block

process_redelivered_example :
    process_propose_block_event list_trees proposer_of
      (at_block (some 6))
      4
      block
      (process_propose_block_event list_trees proposer_of (at_block (some 5)) 4 block synced).1
    ≡ (
      ok tt,
      (process_propose_block_event list_trees proposer_of (at_block (some 5)) 4 block synced).1,
    )
process_redelivered_example =
    process_redelivered list_trees proposer_of (at_block (some 5)) (at_block (some 6)) block block
      synced 2 2 (11 ∷ 12 ∷ []) (11 ∷ 12 ∷ []) (block-IsReadable (some 5))
      (block-IsReadable (some 6)) accepted_block

process_lost_example :
    (process_propose_block_event list_trees proposer_of (at_block none) 4 block synced
      ≡ (err io_error, record synced { expected = 5 }))
    × (process_propose_block_event list_trees proposer_of
          (at_block (some 5))
          4
          block
          (record synced { expected = 5 })
        ≡ (ok tt, record synced { expected = 5 }))
unfolding get_block_by_number
process_lost_example =
    process_lost list_trees proposer_of (at_block none) (at_block (some 5)) block block synced 2 2
      (11 ∷ 12 ∷ []) (11 ∷ 12 ∷ []) (block-IsReadable none) (block-IsReadable (some 5)) refl refl

abbrev other_block : StoredBlock
other_block = record { layer2_block_number = 4; commitments = 20 ∷ []; proposer_address = 1 }

abbrev forked_state : State list_trees proposer_of
forked_state = record synced { blocks = other_block ∷ [] }

process_forked_example :
    (process_propose_block_event list_trees proposer_of (at_block (some 5)) 4 block forked_state ≡ (
      err (block_hash_error 1 2),
      record forked_state {
        blocks = delete_block_by_number 4 (other_block ∷ []);
        sync = clear_synchronised (record { phase = synchronized });
      },
    ))
    × (get_block_by_number 4 (delete_block_by_number 4 (other_block ∷ [])) ≡ none)
unfolding get_block_by_number
process_forked_example =
    process_forked list_trees proposer_of (at_block (some 5)) block forked_state 2 (11 ∷ 12 ∷ [])
      other_block (block-IsReadable (some 5)) (refl, tt) refl (λ e. omega (arith, e))

abbrev deposit_of : Fr254 → DepositDatawithFee
deposit_of f = record {
  fee = f;
  deposit_data = record { nf_token_id = 1; nf_slot_id = 1; value = f; secret_hash = f };
}

abbrev candidates : List Candidate
candidates =
    record { deposit = none; client_tx = none; fee = 3 }
    ∷ record { deposit = none; client_tx = none; fee = 8 }
    ∷ record { deposit = none; client_tx = none; fee = 5 }
    ∷ []

select_lem_example :
    (length (select 2 candidates) ≤ 2)
    × ((rest : List Candidate) × Perm (select 2 candidates ++ rest) candidates
        × Dominates (select 2 candidates) rest
        × ((rest ≡ []) ⊎ (length (select 2 candidates) ≡ 2)))
select_lem_example = select_lem 2 candidates

abbrev pub mempool : Mempool
mempool = record { deposits = deposit_of 6 ∷ []; transactions = []; blocks = [] }

abbrev pub first_input : List Fr254 → Option Fr254
first_input xs = elim xs [ [] ↦ none | x ∷ _ ↦ some x ]

-- A proof names the number of its deposits, and a block that of its proofs.
abbrev pub prove_deposits : List DepositData → Option ℕ
prove_deposits ds = some (length ds)

abbrev prove : List ℕ → List ClientTransactionWithMetaData → Option ℕ
prove ps txs = some (length ps)

deposits_provable : (ds : List DepositData) → length ds ≡ 4 → (p : ℕ) × (prove_deposits ds ≡ some p)
deposits_provable ds four = (length ds, refl)

abbrev pub one_group : List (List DepositDatawithFee)
one_group = (deposit_of 6 ∷ default_deposit ∷ default_deposit ∷ default_deposit ∷ []) ∷ []

make_block-full_example :
    (ps : List ℕ) × (length ps + 0 ≡ 64)
    × (make_block prove_deposits prove 64 (included_deposits one_group) []
        ≡ compute_block prove_deposits prove ps [])
unfolding prepare_block_data sort
make_block-full_example =
    make_block-full prove_deposits prove deposits_provable first_input 64 mempool one_group [] refl
