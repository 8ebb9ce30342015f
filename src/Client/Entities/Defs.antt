-- ===== src/Client/Entities/Defs.antt =====
-- The client's entities, `nightfall_client/src/domain/entities.rs`: the enums with their conversions
-- and the preimage of a commitment. The Poseidon hash, of which `none` is its error, is an argument.
use Prim.Native.String.{String}
use text.Mathlib.Text.{◌==◌}
use nightfall_4_ce.Common.{
  ℕ, zero, suc, get_or, Option, none, some, List, [], ◌∷◌, Bool, true, false, if◌then◌else◌,
}
use nightfall_4_ce.Field.{Fr254}

pub data RequestStatus : Type 0 where
  queued submitted failed processing proposer_unreachable confirmed : RequestStatus

pub data SynchronisationPhase : Type 0 where
  synchronized : SynchronisationPhase
  ahead_of_chain : ℕ → SynchronisationPhase
  desynchronized : SynchronisationPhase

pub record SynchronisationStatus : Type 0 where
  pub phase : SynchronisationPhase

unfoldable pub is_synchronised : SynchronisationStatus → Bool
is_synchronised s = elim s.phase [ synchronized ↦ true | _ ↦ false ]

unfoldable pub set_synchronised : SynchronisationStatus → SynchronisationStatus
set_synchronised s = record s { phase = synchronized }

unfoldable pub clear_synchronised : SynchronisationStatus → SynchronisationStatus
clear_synchronised s = record s { phase = desynchronized }

pub data CommitmentStatus : Type 0 where
  pending_spend spent pending_creation unspent : CommitmentStatus

pub data Transport : Type 0 where
  on_chain off_chain : Transport

pub data OperationType : Type 0 where
  deposit withdraw transfer : OperationType

-- `impl From<OperationType> for u8`, and back.
unfoldable pub operation_type_to_u8 : OperationType → ℕ
operation_type_to_u8 deposit = 0
operation_type_to_u8 withdraw = 1
operation_type_to_u8 transfer = 2

unfoldable pub operation_type_of_u8 : ℕ → OperationType
operation_type_of_u8 zero = deposit
operation_type_of_u8 (suc zero) = withdraw
operation_type_of_u8 (suc (suc zero)) = transfer
operation_type_of_u8 _ = deposit

-- `impl Display for OperationType`.
unfoldable pub operation_type_to_string : OperationType → String
operation_type_to_string deposit = "Deposit"
operation_type_to_string withdraw = "Withdraw"
operation_type_to_string transfer = "Transfer"

-- `impl Display for RequestStatus`.
unfoldable pub request_status_to_string : RequestStatus → String
request_status_to_string queued = "Queued"
request_status_to_string submitted = "Submitted"
request_status_to_string failed = "Failed"
request_status_to_string processing = "Processing"
request_status_to_string proposer_unreachable = "ProposerUnreachable"
request_status_to_string confirmed = "Confirmed"

pub record Operation : Type 0 where
  pub transport : Transport
  pub operation_type : OperationType

-- `impl FromStr for Operation`; a `none` is `ParseOperationError`.
unfoldable pub operation_from_str : String → Option Operation
operation_from_str s =
    if s == "deposit-onchain"
    then some (record { transport = on_chain; operation_type = deposit })
    else if s == "deposit-offchain"
    then some (record { transport = off_chain; operation_type = deposit })
    else if s == "withdraw-onchain"
    then some (record { transport = on_chain; operation_type = withdraw })
    else if s == "withdraw-offchain"
    then some (record { transport = off_chain; operation_type = withdraw })
    else if s == "transfer-onchain"
    then some (record { transport = on_chain; operation_type = transfer })
    else if s == "transfer-offchain"
    then some (record { transport = off_chain; operation_type = transfer })
    else none

pub data ProofType : Type 0 where
  groth16 plonk : ProofType

unfoldable pub proof_type_from_str : String → Option ProofType
proof_type_from_str s =
    if s == "Groth16" then some groth16 else if s == "Plonk" then some plonk else none

pub data TokenType : Type 0 where
  erc20 erc1155 erc721 erc3525 : TokenType

unfoldable pub token_type_to_u8 : TokenType → ℕ
token_type_to_u8 erc20 = 0
token_type_to_u8 erc1155 = 1
token_type_to_u8 erc721 = 2
token_type_to_u8 erc3525 = 3

unfoldable pub token_type_of_u8 : ℕ → TokenType
token_type_of_u8 zero = erc20
token_type_of_u8 (suc zero) = erc1155
token_type_of_u8 (suc (suc zero)) = erc721
token_type_of_u8 (suc (suc (suc zero))) = erc3525
token_type_of_u8 _ = erc20

pub record DepositSecret : Type 0 where
  pub preimage_one : Fr254
  pub preimage_two : Fr254
  pub preimage_three : Fr254

abbrev pub default_secret : DepositSecret
default_secret = record { preimage_one = 0; preimage_two = 0; preimage_three = 0 }

pub data Salt : Type 0 where
  transfer_salt : Fr254 → Salt
  deposit_salt : DepositSecret → Salt

-- An affine point of Baby Jubjub.
pub record Point : Type 0 where
  pub x : Fr254
  pub y : Fr254

pub record Preimage : Type 0 where
  pub value : Fr254
  pub nf_token_id : Fr254
  pub nf_slot_id : Fr254
  pub public_key : Point
  pub salt : Salt

-- `Preimage::default()`, over the default point of the curve library.
abbrev pub default_preimage : Point → Preimage
default_preimage point = record {
  value = 0;
  nf_token_id = 0;
  nf_slot_id = 0;
  public_key = point;
  salt = transfer_salt 0;
}

unfoldable pub get_secret_preimage : Preimage → DepositSecret
get_secret_preimage p = elim p.salt [ transfer_salt _ ↦ default_secret | deposit_salt d ↦ d ]

module _ (hash : List Fr254 → Option Fr254) where
  unfoldable pub hash_secret : DepositSecret → Option Fr254
  hash_secret d = hash (d.preimage_one ∷ d.preimage_two ∷ d.preimage_three ∷ [])

  -- `Salt::get_salt`: a hash error is a panic, `none`.
  unfoldable pub get_salt : Salt → Option Fr254
  unfolding hash_secret
  get_salt (transfer_salt f) = some f
  get_salt (deposit_salt d) = hash_secret d

  unfoldable pub hash_preimage : Preimage → Option Fr254
  unfolding get_salt
  hash_preimage p = elim (get_salt p.salt) [
    | none ↦ none
    | some salt ↦
        hash (p.nf_token_id ∷ p.nf_slot_id ∷ p.value ∷ p.public_key.x ∷ p.public_key.y ∷ salt ∷ [])
  ]

  unfoldable pub nullifier_hash : Preimage → Fr254 → Option Fr254
  unfolding hash_preimage
  nullifier_hash p nullifier_key = elim (hash_preimage p) [
    | none ↦ none
    | some commitment_hash ↦ hash (nullifier_key ∷ commitment_hash ∷ [])
  ]

pub record CompressedSecrets : Type 0 where
  pub secret_0 : Fr254
  pub secret_1 : Fr254
  pub secret_2 : Fr254
  pub secret_3 : Fr254
  pub secret_4 : Fr254

-- `ClientTransaction<P>`, less its proof, whose type is a parameter of the source.
pub record ClientTransaction : Type 0 where
  pub fee : Fr254
  pub historic_commitment_roots : List Fr254
  pub commitments : List Fr254
  pub nullifiers : List Fr254
  pub compressed_secrets : CompressedSecrets

pub record WithdrawData : Type 0 where
  pub nf_token_id : Fr254
  pub withdraw_address : Fr254
  pub value : Fr254
  pub withdraw_fund_salt : Fr254

-- `impl From<&ClientTransaction<P>> for WithdrawData`; the arrays of the source have four entries.
unfoldable pub withdraw_data_of : ClientTransaction → WithdrawData
withdraw_data_of tx = record {
  nf_token_id = tx.compressed_secrets.secret_0;
  withdraw_address = tx.compressed_secrets.secret_1;
  value = tx.compressed_secrets.secret_2;
  withdraw_fund_salt = get_or tx.nullifiers 0 0;
}
