-- ===== src/Client/Events/Defs.antt =====
-- What `process_propose_block_event` of `nightfall_client/src/driven/event_handlers/nightfall_event.rs`
-- reads and writes: the client's collections, the blocks that the chain holds, and the search for the
-- commitments that are ours. The decryption of a transaction's secrets, the texts of field elements and
-- the Poseidon hash are arguments. The client's stored blocks are declared as the proposer's are.
use Prim.Native.String.{String}
use nightfall_4_ce.Common.{
  ℕ, ◌&&◌, not, Bool, true, List, [], ◌∷◌, ◌++◌, Option, none, some, ◌==◌, if◌then◌else◌, Result,
  ok, err, ◌>>=◌, ok_or,
}
use nightfall_4_ce.Field.{Fr254}
use nightfall_4_ce.Conversions.Defs.{Words, fr_of_u256, secrets_of_words}
use nightfall_4_ce.Client.Entities.Defs.{
  Point, Preimage, CompressedSecrets, confirmed, unspent, transfer_salt, hash_preimage,
  nullifier_hash,
}
use nightfall_4_ce.Client.Commitments.Store.{
  CommitmentEntry, new_entry, mark_commitments_unspent, mark_commitments_spent,
}
use nightfall_4_ce.Client.Records.Defs.{
  Request, RequestCommitmentMapping, get_requests_by_commitment, update_request,
}
use nightfall_4_ce.Proposer.Sync.Store.{StoredBlock}
use nightfall_4_ce.Trees.Mutable.Store.{MutableStore}

pub data ClientEventError : Type 0 where
  missing_blocks : ℕ → ClientEventError
  block_hash_error : Fr254 → Fr254 → ClientEventError
  io_error hash_error invalid_calldata panicked : ClientEventError

-- A transaction of a block as the contract encodes it, with four commitments and four nullifiers.
pub record BlockTransaction : Type 0 where
  pub fee : ℕ
  pub commitments : List ℕ
  pub nullifiers : List ℕ
  pub public_data : Words

pub record OnChainBlock : Type 0 where
  pub commitments_root : ℕ
  pub transactions : List BlockTransaction

-- What the handler reads from the chain; a `none` is a failed call.
pub record ChainView : Type 0 where
  pub proposer_address : Option ℕ
  pub current_block : Option ℕ

pub record ClientState : Type 0 where
  pub expected : ℕ
  pub blocks : List StoredBlock
  pub tree : MutableStore
  pub entries : List CommitmentEntry
  pub requests : List Request
  pub mappings : List RequestCommitmentMapping

-- `OnChainTransaction`: the words as field elements. A word that is none is a panic, `none`.
pub record DecodedTransaction : Type 0 where
  pub commitments : List Fr254
  pub nullifiers : List Fr254
  pub secrets : CompressedSecrets

unfoldable pub decode_words : List ℕ → Option (List Fr254)
decode_words [] = some []
decode_words (u ∷ us) = elim (fr_of_u256 u) [
  | err _ ↦ none
  | ok f ↦ elim (decode_words us) [ none ↦ none | some fs ↦ some (f ∷ fs) ]
]

unfoldable pub decode_transaction : BlockTransaction → Option DecodedTransaction
unfolding decode_words
decode_transaction t = elim (fr_of_u256 t.fee) [
  | err _ ↦ none
  | ok _ ↦ elim (decode_words t.commitments) [
    | none ↦ none
    | some cs ↦ elim (decode_words t.nullifiers) [
      | none ↦ none
      | some ns ↦ elim (secrets_of_words t.public_data) [
        | none ↦ none
        | some secrets ↦ some (record { commitments = cs; nullifiers = ns; secrets = secrets })
      ]
    ]
  ]
]

unfoldable pub decode_transactions : List BlockTransaction → Option (List DecodedTransaction)
unfolding decode_transaction
decode_transactions [] = some []
decode_transactions (t ∷ ts) = elim (decode_transaction t) [
  | none ↦ none
  | some d ↦ elim (decode_transactions ts) [ none ↦ none | some ds ↦ some (d ∷ ds) ]
]

unfoldable pub all_commitments : List DecodedTransaction → List Fr254
all_commitments [] = []
all_commitments (t ∷ ts) = t.commitments ++ all_commitments ts

unfoldable pub all_nullifiers : List DecodedTransaction → List Fr254
all_nullifiers [] = []
all_nullifiers (t ∷ ts) = t.nullifiers ++ all_nullifiers ts

unfoldable pub all_zero : List Fr254 → Bool
all_zero [] = true
all_zero (n ∷ ns) = n == 0 && all_zero ns

unfoldable pub first_or_zero : List Fr254 → Fr254
first_or_zero [] = 0
first_or_zero (x ∷ xs) = x

-- The requests of a commitment are confirmed.
unfoldable pub confirm_all : List String → List Request → List Request
confirm_all [] requests = requests
confirm_all (id ∷ ids) requests = confirm_all ids (update_request id confirmed requests)

unfoldable pub confirm_requests :
    (Fr254 → String) → List Fr254 → List RequestCommitmentMapping → List Request → List Request
unfolding confirm_all
confirm_requests to_hex [] mappings requests = requests
confirm_requests to_hex (c ∷ cs) mappings requests =
    confirm_requests to_hex cs mappings
      (confirm_all (get_requests_by_commitment (to_hex c) mappings) requests)

-- The commitments that are now on chain, the spent ones, and the requests. The two marks run
-- concurrently; the order of the source is taken.
unfoldable pub record_on_chain :
    (Fr254 → String) → ℕ → List DecodedTransaction → ClientState → ClientState
unfolding confirm_requests all_commitments all_nullifiers
record_on_chain to_hex hash txs s = record s {
  entries =
      mark_commitments_spent (all_nullifiers txs)
        (mark_commitments_unspent (all_commitments txs) (some hash) s.entries);
  requests = confirm_requests to_hex (all_commitments txs) s.mappings s.requests;
}

-- What a decryption gives.
pub record Decrypted : Type 0 where
  pub token_id : Fr254
  pub slot_id : Fr254
  pub value : Fr254
  pub salt : Fr254

module _ (hash : List Fr254 → Option Fr254) (decrypt : CompressedSecrets → Option Decrypted)
    (public_key : Point) (nullifier_key : Fr254) where
  unfoldable pub test_preimage : Decrypted → Preimage
  test_preimage d = record {
    value = d.value;
    nf_token_id = d.token_id;
    nf_slot_id = d.slot_id;
    public_key = public_key;
    salt = transfer_salt d.salt;
  }

  -- A transaction of transfers whose secrets may be for us.
  unfoldable pub may_be_ours : DecodedTransaction → Bool
  may_be_ours t =
      not (all_zero t.nullifiers)
      && not (first_or_zero t.commitments == 0 && not (first_or_zero t.nullifiers == 0))

  -- The entry of a commitment that the decrypted secrets give again.
  unfoldable pub entry_of : Preimage → Result ClientEventError CommitmentEntry
  entry_of p = do
    nullifier ← ok_or (nullifier_hash hash p nullifier_key) hash_error
    ok_or (new_entry hash public_key p nullifier unspent) panicked

  unfoldable pub own_commitment :
      DecodedTransaction → Result ClientEventError (List CommitmentEntry)
  unfolding test_preimage entry_of
  own_commitment t = do
    d ← ok_or (decrypt t.secrets) io_error
    h ← ok_or (hash_preimage hash (test_preimage d)) io_error
    (if h == first_or_zero t.commitments
        then (entry_of (test_preimage d) >>= (λ entry. ok (entry ∷ [])))
        else ok [])

  unfoldable pub own_commitments :
      List DecodedTransaction → Result ClientEventError (List CommitmentEntry)
  unfolding may_be_ours own_commitment
  own_commitments [] = ok []
  own_commitments (t ∷ ts) = do
    mine ← (if may_be_ours t then own_commitment t else ok [])
    rest ← own_commitments ts
    ok (mine ++ rest)
