-- ===== src/Client/Operations/Requests.antt =====
-- `handle_transfer`, `handle_withdraw`, `handle_deposit` and `handle_request` of
-- `nightfall_client/src/drivers/rest/client_nf_3.rs`.
use Prim.Native.String.{String}
use nightfall_4_ce.Common.{
  List, [], ◌∷◌, map, Option, none, some, ◌==◌, if◌then◌else◌, ok, err, take, drop,
}
use nightfall_4_ce.Field.{Fr254, ◌-F◌}
use nightfall_4_ce.Conversions.Defs.{fr_of_addr}
use nightfall_4_ce.Client.Entities.Defs.{
  Point, Preimage, transfer_salt, token_type_of_u8, default_preimage, hash_preimage,
  get_secret_preimage, queued,
}
use nightfall_4_ce.Client.Commitments.Store.{CommitmentEntry, store_commitment}
use nightfall_4_ce.Client.Records.Defs.{store_request, add_mapping}
use nightfall_4_ce.Client.Operations.State.{
  database_error, custom_error, panicked, Op, ◌>>=◌, ◌>>◌, return_ok, throw, or_throw, modify,
}
use nightfall_4_ce.Client.Operations.Service.{Setting, sum, deposit_operation, commitment_at}
use nightfall_4_ce.Client.Operations.Handlers.{
  Reply, deposit_reply, transaction_reply, withdraw_reply, DepositRequest, TransferRequest,
  WithdrawRequest, Randomness, pending_entry, handle_client_operation, select_spend,
}

pub data TransactionRequest : Type 0 where
  deposit_request : DepositRequest → TransactionRequest
  transfer_request : TransferRequest → TransactionRequest
  withdraw_request : WithdrawRequest → TransactionRequest

-- The conversion of a field of a request.
abbrev pub parsed : {A : Type 0} → Option A → Op A
parsed field = or_throw field custom_error

-- `.first().unwrap()` and `.first().ok_or(...)`, and then the conversion.
unfoldable pub first_value : List (Option Fr254) → Op Fr254
first_value [] = throw panicked
first_value (v ∷ vs) = parsed v

unfoldable pub first_key : List (Option Point) → Op Point
first_key [] = throw custom_error
first_key (k ∷ ks) = parsed k

module _ (env : Setting) where
  -- The contract's key, which nobody can spend from.
  abbrev pub contract_key : Point
  contract_key = record { x = 0; y = fr_of_addr env.nf_address }

  -- A commitment of this value, or the default one if there is nothing to commit to.
  unfoldable pub commitment_unless_zero : Fr254 → Fr254 → Fr254 → Point → Fr254 → Preimage
  commitment_unless_zero value token slot key salt =
      if value == 0 then default_preimage env.default_point else record {
        value = value;
        nf_token_id = token;
        nf_slot_id = slot;
        public_key = key;
        salt = transfer_salt salt;
      }

  -- The new commitments: for the receiver, the token's change, the fee and the fee's change.
  unfoldable pub new_commitments :
      List Preimage → Fr254 → Fr254 → Fr254 → Point → Fr254 → Randomness → List Preimage
  unfolding commitment_unless_zero
  new_commitments spend token value fee key salt r =
      let slot = (commitment_at env spend 0).nf_slot_id in
      record {
        value = value;
        nf_token_id = token;
        nf_slot_id = slot;
        public_key = key;
        salt = transfer_salt salt;
      }
      ∷ commitment_unless_zero (sum (take 2 spend) -F value) token slot env.zkp_public_key
          r.salt_two
      ∷ commitment_unless_zero fee env.fee_token_id env.fee_token_id contract_key r.salt_three
      ∷ commitment_unless_zero (sum (drop 2 spend) -F fee) env.fee_token_id env.fee_token_id
          env.zkp_public_key r.salt_four
      ∷ []

  -- The hashes of the commitments, where an error is a panic.
  unfoldable pub hash_all : List Preimage → Op (List Fr254)
  hash_all [] = return_ok []
  hash_all (c ∷ cs) = do
    h ← or_throw (hash_preimage env.hash c) panicked
    hs ← hash_all cs
    return_ok (h ∷ hs)

  -- What a transfer does once its commitments are chosen.
  unfoldable pub finish_transfer :
      Fr254 → Fr254 → Fr254 → Point → Randomness → String → List Preimage → Op Reply
  unfolding new_commitments hash_all
  finish_transfer nf_token_id value fee recipient r id spend = do
    let new =
        new_commitments spend nf_token_id value fee recipient
          (env.shared_secret recipient r.ephemeral_key).y r
    shown ← hash_all new
    result ←
        handle_client_operation env spend new r.ephemeral_key 0 (map get_secret_preimage spend) id
    return_ok (transaction_reply result)

  unfoldable pub handle_transfer : TransferRequest → Randomness → String → Op Reply
  unfolding first_value first_key finish_transfer
  handle_transfer req r id = do
    modify (λ s. record s { requests = store_request id queued s.requests })
    nf_token_id ← parsed req.nf_token_id
    value ← first_value req.values
    fee ← parsed req.fee
    recipient ← first_key req.recipient_keys
    spend ← select_spend env nf_token_id value fee
    finish_transfer nf_token_id value fee recipient r id spend

  -- What a withdrawal does once its commitments are chosen.
  unfoldable pub finish_withdraw :
      Fr254 → Fr254 → Fr254 → Fr254 → Randomness → String → List Preimage → Op Reply
  unfolding new_commitments
  finish_withdraw nf_token_id value fee recipient_address r id spend = do
    let new = new_commitments spend nf_token_id value fee contract_key r.salt_one r
    spent_hash ← or_throw (hash_preimage env.hash (commitment_at env spend 0)) panicked
    withdraw_fund_salt ← or_throw (env.hash (env.nullifier_key ∷ spent_hash ∷ [])) panicked
    sent ←
        handle_client_operation env spend new 0 recipient_address (map get_secret_preimage spend) id
    return_ok (withdraw_reply withdraw_fund_salt)

  unfoldable pub handle_withdraw : WithdrawRequest → Randomness → String → Op Reply
  unfolding finish_withdraw
  handle_withdraw req r id = do
    modify (λ s. record s { requests = store_request id queued s.requests })
    nf_token_id ← parsed req.nf_token_id
    value ← parsed req.value
    fee ← parsed req.fee
    recipient_address ← parsed req.recipient_address
    spend ← select_spend env nf_token_id value fee
    finish_withdraw nf_token_id value fee recipient_address r id spend

  unfoldable pub map_to_request : String → Fr254 → Op (Unit {0})
  map_to_request id commitment_hash =
      modify (λ s. record s { mappings = add_mapping id (env.to_hex commitment_hash) s.mappings })

  unfoldable pub store_entry : CommitmentEntry → Op (Unit {0})
  store_entry entry s = elim (store_commitment entry s.entries) [
    | none ↦ (err database_error, s)
    | some entries ↦ (ok tt, record s { entries = entries })
  ]

  -- The commitment of the fee, if there is one, is mapped before it is stored.
  unfoldable pub store_fee : String → Option Preimage → Op (List Fr254)
  unfolding map_to_request store_entry
  store_fee id none = return_ok []
  store_fee id (some p) = do
    entry ← or_throw (pending_entry env p) panicked
    map_to_request id entry.key
    store_entry entry
    return_ok (entry.key ∷ [])

  unfoldable pub handle_deposit : DepositRequest → Randomness → String → Op Reply
  unfolding store_fee map_to_request store_entry
  handle_deposit req r id = do
    erc_address ← parsed req.erc_address
    token_id ← parsed req.token_id
    token_type ← parsed req.token_type
    fee ← parsed req.fee
    deposit_fee ← parsed req.deposit_fee
    value ← parsed req.value
    deposited ← (λ s. (
      deposit_operation env erc_address value fee deposit_fee token_id r.secret
          (token_type_of_u8 token_type),
      s,
    ))
    entry ← or_throw (pending_entry env deposited.0) panicked
    store_entry entry
    map_to_request id entry.key
    fee_hash ← store_fee id deposited.1
    return_ok (deposit_reply (entry.key ∷ fee_hash))

  unfoldable pub handle_request : TransactionRequest → Randomness → String → Op Reply
  unfolding handle_deposit handle_transfer handle_withdraw
  handle_request (deposit_request req) r id = handle_deposit req r id
  handle_request (transfer_request req) r id = handle_transfer req r id
  handle_request (withdraw_request req) r id = handle_withdraw req r id
