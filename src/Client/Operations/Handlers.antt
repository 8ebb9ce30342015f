-- ===== src/Client/Operations/Handlers.antt =====
-- The handlers of requests: `handle_client_operation` of
-- `nightfall_client/src/drivers/rest/client_operation.rs`, and those of deposits, transfers and
-- withdrawals in `nightfall_client/src/drivers/rest/client_nf_3.rs`. The fields of a request stand for
-- the results of their conversions, where a `none` is a text that is refused; random values are
-- arguments. Of the replies, the JSON texts are left out.
use Prim.Native.String.{String}
use nightfall_4_ce.Common.{
  ℕ, Bool, true, false, ◌&&◌, not, List, [], ◌∷◌, Option, none, some, ◌==◌, if◌then◌else◌, ok, err,
}
use nightfall_4_ce.Field.{Fr254}
use nightfall_4_ce.Client.Entities.Defs.{
  Point, Preimage, Salt, transfer_salt, deposit_salt, DepositSecret, ClientTransaction,
  default_preimage, hash_preimage, nullifier_hash, pending_creation,
}
use nightfall_4_ce.Client.Commitments.Store.{
  CommitmentEntry, new_entry, store_commitments, find_usable_commitments,
}
use nightfall_4_ce.Client.Records.Defs.{add_mapping}
use nightfall_4_ce.Client.Operations.State.{
  database_error, custom_error, panicked, Op, ◌>>=◌, ◌>>◌, return_ok, or_throw, modify,
}
use nightfall_4_ce.Client.Operations.Send.{process_transaction_offchain}
use nightfall_4_ce.Client.Operations.Service.{Setting, client_operation}

pub data Reply : Type 0 where
  deposit_reply : List Fr254 → Reply
  transaction_reply : ClientTransaction → Reply
  withdraw_reply : Fr254 → Reply

pub record DepositRequest : Type 0 where
  pub erc_address : Option Fr254
  pub token_id : Option ℕ
  pub token_type : Option ℕ
  pub value : Option Fr254
  pub fee : Option Fr254
  pub deposit_fee : Option Fr254

-- `nf_token_id` is made of the address and the token's id.
pub record TransferRequest : Type 0 where
  pub nf_token_id : Option Fr254
  pub values : List (Option Fr254)
  pub fee : Option Fr254
  pub recipient_keys : List (Option Point)

pub record WithdrawRequest : Type 0 where
  pub nf_token_id : Option Fr254
  pub value : Option Fr254
  pub fee : Option Fr254
  pub recipient_address : Option Fr254

-- The random values of a request: the salts of the new commitments, the ephemeral key and the secret of
-- a deposit.
pub record Randomness : Type 0 where
  pub salt_one : Fr254
  pub salt_two : Fr254
  pub salt_three : Fr254
  pub salt_four : Fr254
  pub ephemeral_key : ℕ
  pub secret : DepositSecret

unfoldable pub same_secret : DepositSecret → DepositSecret → Bool
same_secret a b =
    a.preimage_one == b.preimage_one
    && (a.preimage_two == b.preimage_two && a.preimage_three == b.preimage_three)

unfoldable pub same_salt : Salt → Salt → Bool
unfolding same_secret
same_salt (transfer_salt f) (transfer_salt g) = f == g
same_salt (deposit_salt a) (deposit_salt b) = same_secret a b
same_salt _ _ = false

unfoldable pub same_point : Point → Point → Bool
same_point p q = p.x == q.x && p.y == q.y

-- The derived `PartialEq` of preimages.
unfoldable pub same_preimage : Preimage → Preimage → Bool
unfolding same_salt same_point
same_preimage a b =
    a.value == b.value
    && (a.nf_token_id == b.nf_token_id
        && (a.nf_slot_id == b.nf_slot_id
            && (same_point a.public_key b.public_key && same_salt a.salt b.salt)))

module _ (env : Setting) where
  -- The entry of a commitment that is to be created, and a panic for a hash that fails.
  unfoldable pub pending_entry : Preimage → Option CommitmentEntry
  pending_entry c = elim (nullifier_hash env.hash c env.nullifier_key) [
    | none ↦ none
    | some nullifier ↦ new_entry env.hash env.default_point c nullifier pending_creation
  ]

  -- Our own commitments, less the first and the default ones.
  unfoldable pub is_change : Bool → Preimage → Bool
  unfolding same_preimage same_point
  is_change first c =
      same_point c.public_key env.zkp_public_key
      && (not first && not (same_preimage c (default_preimage env.default_point)))

  -- The mappings of the new commitments, and the entries of those that are change.
  unfoldable pub map_commitments : String → Bool → List Preimage → Op (List CommitmentEntry)
  unfolding is_change pending_entry
  map_commitments id first [] = return_ok []
  map_commitments id first (c ∷ cs) = do
    commitment_hash ← or_throw (hash_preimage env.hash c) panicked
    modify (λ s. record s { mappings = add_mapping id (env.to_hex commitment_hash) s.mappings })
    (if is_change first c
        then (or_throw (pending_entry c) panicked >>= λ entry.
            map_commitments id false cs >>= λ entries. return_ok (entry ∷ entries))
        else map_commitments id false cs)

  unfoldable pub store_change : List CommitmentEntry → Op (Unit {0})
  unfolding store_commitments
  store_change entries s =
      let (stored, entries') = store_commitments entries true s.entries in
      elim stored [
        | none ↦ (err database_error, record s { entries = entries' })
        | some _ ↦ (ok tt, record s { entries = entries' })
      ]

  unfoldable pub send : String → Op (Unit {0})
  send id s =
      let (sent, requests') =
        process_transaction_offchain env.is_success env.proposers id s.requests in
      if sent
      then (ok tt, record s { requests = requests' })
      else (err custom_error, record s { requests = requests' })

  unfoldable pub handle_client_operation :
      List Preimage → List Preimage → ℕ → Fr254 → List DepositSecret → String → Op ClientTransaction
  unfolding map_commitments store_change send
  handle_client_operation spend new ephemeral_key recipient secret_preimages id = do
    entries ← map_commitments id true new
    store_change entries
    result ← (λ s. (client_operation env spend new ephemeral_key recipient secret_preimages s, s))
    send id
    return_ok result

  -- The commitments of a token that are to be spent, and those of the fee, if there is one.
  unfoldable pub select_commitments : Fr254 → Fr254 → Op (Preimage × Preimage)
  select_commitments token target s =
      let (found, entries') =
        find_usable_commitments env.hash env.default_point token target s.entries in
      elim found [
        | err _ ↦ (err custom_error, record s { entries = entries' })
        | ok pair ↦ (ok pair, record s { entries = entries' })
      ]

  unfoldable pub select_fee_commitments : Fr254 → Op (Preimage × Preimage)
  unfolding select_commitments
  select_fee_commitments fee =
      if fee == 0
      then return_ok (default_preimage env.default_point, default_preimage env.default_point)
      else select_commitments env.fee_token_id fee

  unfoldable pub select_spend : Fr254 → Fr254 → Fr254 → Op (List Preimage)
  unfolding select_commitments select_fee_commitments
  select_spend token value fee = do
    for_value ← select_commitments token value
    for_fee ← select_fee_commitments fee
    return_ok (for_value.0 ∷ for_value.1 ∷ for_fee.0 ∷ for_fee.1 ∷ [])
