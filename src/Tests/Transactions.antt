-- ===== src/Tests/Transactions.antt =====
-- The transactions that the proposer takes, at concrete inputs.
use nightfall_4_ce.Common.{
  ◌++◌, ℕ, true, false, ◌≡◌, ◌⊎◌, refl, List, [], ◌∷◌, Option, some, ok, err,
}
use nightfall_4_ce.Trees.Root.{leaf_at}
use nightfall_4_ce.Trees.Mutable.Store.{is_leaf, find_value}
use nightfall_4_ce.Trees.Indexed.Defs.{get_leaf, get_low_leaf}
use nightfall_4_ce.Trees.Indexed.State.{
  and_then, ◌>>=◌, ◌>>◌, throw_if, or_throw, read_leaves, read_tree,
}
use nightfall_4_ce.Trees.Indexed.Tree.{get_non_membership_proof}
use nightfall_4_ce.Client.Entities.Defs.{ClientTransaction}
use nightfall_4_ce.Proposer.Assembly.Mempool.{DepositDatawithFee}
use nightfall_4_ce.Proposer.Transactions.Defs.{
  ClientTransactionError, transaction_already_exists, ProposerDb, Verifier, insert_transaction,
  verify, process_nightfall_client_transaction, check_transaction,
}
use nightfall_4_ce.Proposer.Transactions.Deposits.{process_deposit_transaction, find_deposit}
use nightfall_4_ce.Proposer.Transactions.Admitted.{
  with_pending, IsAdmitted, process_nightfall_client_transaction_lem,
}
use nightfall_4_ce.Proposer.Transactions.Repeat.{
  process_nightfall_client_transaction_again, process_nightfall_client_transaction_unverified,
  process_deposit_transaction_again,
}
use nightfall_4_ce.Tests.Mutable.{hasher, meta, hash₃, no_entry, indexed, indexed-IsIndexed}

-- A proof is a number, the hash of its public inputs, and no proof verifies.
abbrev verifier : Verifier ℕ ℕ
verifier = record {
  pi_hash = λ proof. proof;
  sponge = λ inputs. 3;
  recursive_output = λ proof. some proof;
  verify_recursive_proof = λ output. false;
}

-- Two commitments are spent.
abbrev transaction : ClientTransaction
transaction = record {
  fee = 1;
  historic_commitment_roots = 6 ∷ 6 ∷ 0 ∷ 0 ∷ [];
  commitments = 11 ∷ 12 ∷ 0 ∷ 0 ∷ [];
  nullifiers = 21 ∷ 22 ∷ 0 ∷ 0 ∷ [];
  compressed_secrets = record {
    secret_0 = 1;
    secret_1 = 2;
    secret_2 = 3;
    secret_3 = 4;
    secret_4 = 0;
  };
}

abbrev transaction_hash : ClientTransaction → ℕ → Option (List ℕ)
transaction_hash tx proof = some (tx.fee ∷ proof ∷ [])

abbrev database : ProposerDb
database = record {
  mempool = record { deposits = []; transactions = []; blocks = [] };
  nullifier_tree = indexed;
  historic_root_tree = record {
    metadata = some meta;
    nodes = record { value = 6; id = 7 } ∷ [];
    cache = [];
  };
}

process_nightfall_client_transaction_lem_example :
    (IsAdmitted transaction (1 ∷ 3 ∷ []) database
      × (process_nightfall_client_transaction hasher hash₃ no_entry verifier transaction_hash
            transaction 3 database
          ≡ (ok tt, with_pending transaction (1 ∷ 3 ∷ []) database)))
    ⊎ ((e : ClientTransactionError) × (¬ IsAdmitted transaction (1 ∷ 3 ∷ []) database)
        × (process_nightfall_client_transaction hasher hash₃ no_entry verifier transaction_hash
              transaction 3 database
            ≡ (err e, database)))
unfolding verify
process_nightfall_client_transaction_lem_example =
    process_nightfall_client_transaction_lem hasher hash₃ no_entry verifier transaction_hash meta
      (leaf_at []) transaction 3 (1 ∷ 3 ∷ []) false database indexed-IsIndexed refl refl

process_nightfall_client_transaction_again_example :
    process_nightfall_client_transaction hasher hash₃ no_entry verifier transaction_hash transaction
      3
      (insert_transaction transaction (1 ∷ 3 ∷ []) database)
    ≡ (err transaction_already_exists, insert_transaction transaction (1 ∷ 3 ∷ []) database)
unfolding process_nightfall_client_transaction check_transaction is_leaf find_value
    get_non_membership_proof get_leaf get_low_leaf and_then ◌>>=◌ ◌>>◌ throw_if or_throw read_leaves
    read_tree
process_nightfall_client_transaction_again_example =
    process_nightfall_client_transaction_again hasher hash₃ no_entry verifier transaction_hash
      transaction 3 database (insert_transaction transaction (1 ∷ 3 ∷ []) database) refl

process_nightfall_client_transaction_unverified_example :
    process_nightfall_client_transaction hasher hash₃ no_entry
      (record verifier { verify_recursive_proof = λ output. true })
      transaction_hash
      transaction
      3
      database
    ≡ process_nightfall_client_transaction hasher hash₃ no_entry verifier transaction_hash
        transaction 3 database
process_nightfall_client_transaction_unverified_example =
    process_nightfall_client_transaction_unverified hasher hash₃ no_entry verifier transaction_hash
      (λ output. true) transaction 3 database

abbrev deposit : DepositDatawithFee
deposit = record {
  fee = 2;
  deposit_data = record { nf_token_id = 9; nf_slot_id = 9; value = 5; secret_hash = 77 };
}

abbrev deposit_hash : DepositDatawithFee → Option (List ℕ)
deposit_hash d = some (d.fee ∷ [])

process_deposit_transaction_again_example :
    (process_deposit_transaction deposit_hash deposit database.mempool
      ≡ (ok tt, record (database.mempool) { deposits = database.mempool.deposits ++ deposit ∷ [] }))
    × (process_deposit_transaction deposit_hash deposit
          (record (database.mempool) { deposits = database.mempool.deposits ++ deposit ∷ [] })
        ≡ (
          ok tt,
          record (database.mempool) {
            deposits = database.mempool.deposits ++ deposit ∷ deposit ∷ [];
          },
        ))
unfolding find_deposit
process_deposit_transaction_again_example =
    process_deposit_transaction_again deposit_hash deposit database.mempool refl
