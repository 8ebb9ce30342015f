-- ===== src/Proposer/Transactions/Deposits.antt =====
-- `process_deposit_transaction` of `nightfall_proposer/src/driven/nightfall_client_transaction.rs`, and
-- `process_deposit_escrowed_event` of `nightfall_proposer/src/driven/nightfall_event.rs`. The hash of a
-- deposit, the token id of an address and the decoding of a call are arguments.
use nightfall_4_ce.Common.{
  ℕ, List, [], ◌∷◌, ◌++◌, Option, none, some, ◌==◌, if◌then◌else◌, Result, ok, err,
}
use nightfall_4_ce.Field.{Fr254}
use nightfall_4_ce.Conversions.Defs.{fr_of_u256}
use nightfall_4_ce.Proposer.Assembly.Mempool.{
  Mempool, ClientTransactionWithMetaData, DepositDatawithFee, same_hash, any,
}
use nightfall_4_ce.Proposer.Transactions.Defs.{
  ClientTransactionError, transaction_already_exists, panicked,
}

-- The call of the contract that escrowed the funds; the numbers are words.
pub record EscrowFunds : Type 0 where
  pub fee : ℕ
  pub erc_address : ℕ
  pub token_id : ℕ
  pub secret_hash : ℕ

-- What the event says.
pub record DepositEscrowed : Type 0 where
  pub nf_slot_id : ℕ
  pub value : ℕ

-- What comes back for the hash of a transaction, and its decoding.
pub data EscrowCall : Type 0 where
  not_readable not_found not_decoded other_call : EscrowCall
  escrow_funds : EscrowFunds → EscrowCall

pub data DepositEventError : Type 0 where
  io_error invalid_calldata event_panicked : DepositEventError

unfoldable pub set_mempool_deposits : List DepositDatawithFee → Mempool → Mempool
set_mempool_deposits ds m = record m { deposits = m.deposits ++ ds }

-- `find_deposit` searches the collection of client transactions: what it finds there is not a deposit,
-- which is a panic.
unfoldable pub find_deposit :
    Option (List ℕ) → Mempool → Result ClientTransactionError (Option DepositDatawithFee)
find_deposit none m = ok none
find_deposit (some h) m =
    if any (λ (t : ClientTransactionWithMetaData). same_hash t.hash h) m.transactions
    then err panicked
    else ok none

module _ (hash : DepositDatawithFee → Option (List ℕ)) where
  unfoldable pub process_deposit_transaction :
      DepositDatawithFee → Mempool → Result ClientTransactionError (Unit {0}) × Mempool
  unfolding find_deposit set_mempool_deposits
  process_deposit_transaction d m = elim (find_deposit (hash d) m) [
    | err e ↦ (err e, m)
    | ok (some _) ↦ (err transaction_already_exists, m)
    | ok none ↦ (ok tt, set_mempool_deposits (d ∷ []) m)
  ]

  module _ (fee_token_id : Fr254) (to_nf_token_id : ℕ → ℕ → Fr254) where
    -- The deposit of an escrow of a value, or of a fee.
    unfoldable pub deposit_of : Fr254 → Fr254 → Fr254 → Fr254 → Fr254 → DepositDatawithFee
    deposit_of fee nf_token_id nf_slot_id value secret_hash = record {
      fee = fee;
      deposit_data =
          if nf_slot_id == fee_token_id
          then record {
            nf_token_id = fee_token_id;
            nf_slot_id = fee_token_id;
            value = value;
            secret_hash = secret_hash;
          }
          else record {
            nf_token_id = nf_token_id;
            nf_slot_id = nf_slot_id;
            value = value;
            secret_hash = secret_hash;
          };
    }

    -- The words of the call and of the event as field elements, if they all are.
    unfoldable pub decode_deposit : EscrowFunds → DepositEscrowed → Option DepositDatawithFee
    unfolding deposit_of
    decode_deposit call event = elim (fr_of_u256 call.fee) [
      | err _ ↦ none
      | ok fee ↦ elim (fr_of_u256 call.secret_hash) [
        | err _ ↦ none
        | ok secret_hash ↦ elim (fr_of_u256 event.nf_slot_id) [
          | err _ ↦ none
          | ok nf_slot_id ↦ elim (fr_of_u256 event.value) [
            | err _ ↦ none
            | ok value ↦ some (
                deposit_of fee (to_nf_token_id call.erc_address call.token_id) nf_slot_id value
                  secret_hash)
          ]
        ]
      ]
    ]

    -- A panic of the call within is one of this one.
    unfoldable pub as_io_error :
        Result ClientTransactionError (Unit {0}) × Mempool
        → Result DepositEventError (Unit {0}) × Mempool
    as_io_error (ok _, m) = (ok tt, m)
    as_io_error (err panicked, m) = (err event_panicked, m)
    as_io_error (err _, m) = (err io_error, m)

    unfoldable pub process_deposit_escrowed_event :
        EscrowCall → DepositEscrowed → Mempool → Result DepositEventError (Unit {0}) × Mempool
    unfolding decode_deposit process_deposit_transaction as_io_error
    process_deposit_escrowed_event not_readable event m = (err io_error, m)
    process_deposit_escrowed_event not_found event m = (err event_panicked, m)
    process_deposit_escrowed_event not_decoded event m = (err invalid_calldata, m)
    process_deposit_escrowed_event other_call event m = (ok tt, m)
    process_deposit_escrowed_event (escrow_funds call) event m = elim (decode_deposit call event) [
      | none ↦ (err io_error, m)
      | some d ↦ as_io_error (process_deposit_transaction d m)
    ]
