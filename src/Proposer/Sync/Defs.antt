-- ===== src/Proposer/Sync/Defs.antt =====
-- `process_propose_block_event` of `nightfall_proposer/src/driven/nightfall_event.rs`: what it reads of
-- the chain is the argument `chain`, where a `none` of the number is a failed call; the two trees and
-- the tree of the historic roots are the interface `TreeOps`. The transactions are converted by
-- `nightfall_proposer/src/driven/block_assembler.rs`. Block numbers are not negative.
use nightfall_4_ce.Common.{
  ℕ, ◌+◌, ◌||◌, not, List, [], ◌∷◌, ◌++◌, Option, none, some, ltb, ◌==◌, if◌then◌else◌, Result, ok,
  err,
}
use nightfall_4_ce.Field.{Fr254}
use nightfall_4_ce.Client.Entities.Defs.{
  CompressedSecrets, SynchronisationStatus, is_synchronised, set_synchronised, clear_synchronised,
}
use nightfall_4_ce.Conversions.Defs.{Words, fr_of_u256, secrets_of_words}
use nightfall_4_ce.Trees.Types.{Failure, error, panic}
use nightfall_4_ce.Proposer.Sync.Store.{
  StoredBlock, get_block_by_number, store_block, delete_block_by_number,
}

pub data EventError : Type 0 where
  missing_blocks : ℕ → EventError
  block_hash_error : Fr254 → Fr254 → EventError
  io_error : EventError
  panicked : EventError

-- A transaction of a block as the contract encodes it.
pub record ChainTransaction : Type 0 where
  pub fee : ℕ
  pub commitments : List ℕ
  pub nullifiers : List ℕ
  pub public_data : Words

pub record ChainBlock : Type 0 where
  pub commitments_root : ℕ
  pub transactions : List ChainTransaction

pub record OnChainTransaction : Type 0 where
  pub fee : Fr254
  pub commitments : List Fr254
  pub nullifiers : List Fr254
  pub public_data : CompressedSecrets

-- What comes back for the hash of the block's transaction: an error, nothing, or its signer.
pub data TransactionSender : Type 0 where
  unreadable absent : TransactionSender
  signed_by : ℕ → TransactionSender

-- What the handler reads from the chain.
pub record Chain : Type 0 where
  pub our_address : ℕ
  pub sender_address : TransactionSender
  pub current_block : Option ℕ

-- The trees that the handler writes to, over a state of their own. A write that fails, by an error or a
-- panic, may have changed them.
pub record TreeOps : Type 1 where
  pub Trees : Type 0
  pub commitment_root : Trees → Result Failure Fr254
  pub append_commitments : List Fr254 → Trees → Result Failure (Unit {0}) × Trees
  pub insert_nullifiers : List Fr254 → Trees → Result Failure (Unit {0}) × Trees
  pub append_historic_root : Fr254 → Trees → Result Failure (Unit {0}) × Trees

-- All the numbers as field elements, or nothing if one of them is none.
unfoldable pub to_field : List ℕ → Option (List Fr254)
to_field [] = some []
to_field (u ∷ us) = elim (fr_of_u256 u) [
  | err _ ↦ none
  | ok f ↦ elim (to_field us) [ none ↦ none | some fs ↦ some (f ∷ fs) ]
]

unfoldable pub block_commitments : List ChainTransaction → List ℕ
block_commitments [] = []
block_commitments (t ∷ ts) = t.commitments ++ block_commitments ts

unfoldable pub block_nullifiers : List ChainTransaction → List ℕ
block_nullifiers [] = []
block_nullifiers (t ∷ ts) = t.nullifiers ++ block_nullifiers ts

-- `OnChainTransaction::from`: a word that is no field element is a panic, `none`.
unfoldable pub on_chain_transaction : ChainTransaction → Option OnChainTransaction
unfolding to_field
on_chain_transaction t = elim (fr_of_u256 t.fee) [
  | err _ ↦ none
  | ok fee ↦ elim (to_field t.commitments) [
    | none ↦ none
    | some commitments ↦ elim (to_field t.nullifiers) [
      | none ↦ none
      | some nullifiers ↦ elim (secrets_of_words t.public_data) [
        | none ↦ none
        | some secrets ↦ some (record {
          fee = fee;
          commitments = commitments;
          nullifiers = nullifiers;
          public_data = secrets;
        })
      ]
    ]
  ]
]

-- The commitments of the transactions, which are all converted whole.
unfoldable pub decoded_commitments : List ChainTransaction → Option (List Fr254)
unfolding on_chain_transaction
decoded_commitments [] = some []
decoded_commitments (t ∷ ts) = elim (on_chain_transaction t) [
  | none ↦ none
  | some tx ↦ elim (decoded_commitments ts) [ none ↦ none | some fs ↦ some (tx.commitments ++ fs) ]
]

unfoldable pub event_error : Failure → EventError
event_error (error _) = io_error
event_error panic = panicked

module _ (ops : TreeOps) (block_hash : StoredBlock → Fr254) where
  open ops use {Trees, commitment_root, append_commitments, insert_nullifiers, append_historic_root}

  pub record State : Type 0 where
    pub expected : ℕ
    pub sync : SynchronisationStatus
    pub blocks : List StoredBlock
    pub trees : Trees

  abbrev pub Outcome : Type 0
  Outcome = Result EventError (Unit {0}) × State

  unfoldable pub clear_sync : State → State
  clear_sync s = record s { sync = clear_synchronised s.sync }

  unfoldable pub set_sync : State → State
  set_sync s = record s { sync = set_synchronised s.sync }

  -- The last steps: the status by the number on the chain, and the block into the database.
  unfoldable pub finish : ℕ → ℕ → StoredBlock → State → Outcome
  unfolding clear_sync set_sync
  finish current n pending s =
      let s' = if current == n + 1 then set_sync s else clear_sync s in
      (ok tt, record s' { blocks = store_block pending s'.blocks })

  -- What a write to the trees leaves, and what follows it if it succeeds.
  unfoldable pub on_trees : Result Failure (Unit {0}) × Trees → State → (State → Outcome) → Outcome
  unfolding event_error
  on_trees (err e, trees) s next = (err (event_error e), record s { trees = trees })
  on_trees (ok _, trees) s next = next (record s { trees = trees })

  -- A root that differs from the tree's is only logged.
  unfoldable pub compare_root : ℕ → ℕ → StoredBlock → State → Outcome
  unfolding finish event_error
  compare_root current n pending s = elim (commitment_root s.trees) [
    | err e ↦ (err (event_error e), s)
    | ok _ ↦ finish current n pending s
  ]

  unfoldable pub record_root : ℕ → ℕ → StoredBlock → ChainBlock → State → Outcome
  unfolding compare_root on_trees
  record_root current n pending blk s = elim (fr_of_u256 blk.commitments_root) [
    | err _ ↦ (err io_error, s)
    | ok root ↦ on_trees (append_historic_root root s.trees) s (compare_root current n pending)
  ]

  unfoldable pub add_nullifiers : ℕ → ℕ → StoredBlock → ChainBlock → State → Outcome
  unfolding record_root on_trees
  add_nullifiers current n pending blk s = elim (to_field (block_nullifiers blk.transactions)) [
    | none ↦ (err panicked, s)
    | some nullifiers ↦
        on_trees (insert_nullifiers nullifiers s.trees) s (record_root current n pending blk)
  ]

  unfoldable pub add_commitments : ℕ → ℕ → StoredBlock → ChainBlock → State → Outcome
  unfolding add_nullifiers on_trees
  add_commitments current n pending blk s = elim (to_field (block_commitments blk.transactions)) [
    | none ↦ (err panicked, s)
    | some commitments ↦
        on_trees (append_commitments commitments s.trees) s (add_nullifiers current n pending blk)
  ]

  -- The trees are left alone where the block is our own and we are in step.
  unfoldable pub update_trees : Chain → ℕ → ℕ → ℕ → StoredBlock → ChainBlock → State → Outcome
  unfolding add_commitments event_error
  update_trees chain sender current n pending blk s = elim (commitment_root s.trees) [
    | err e ↦ (err (event_error e), s)
    | ok root ↦
        if not (chain.our_address == sender) || not (is_synchronised s.sync) || root == 0
        then add_commitments current n pending blk s
        else record_root current n pending blk s
  ]

  -- The number on the chain is read; at one block we are in step.
  unfoldable pub read_current : Chain → ℕ → ℕ → StoredBlock → ChainBlock → State → Outcome
  unfolding update_trees set_sync
  read_current chain sender n pending blk s = elim chain.current_block [
    | none ↦ (err io_error, s)
    | some current ↦
        update_trees chain sender current n pending blk (if current == 1 then set_sync s else s)
  ]

  -- The block that is expected: a stored block with the number must have the same hash.
  unfoldable pub check_stored : Chain → ℕ → ℕ → StoredBlock → ChainBlock → State → Outcome
  unfolding read_current clear_sync
  check_stored chain sender n pending blk s = elim (get_block_by_number s.expected s.blocks) [
    | none ↦ read_current chain sender n pending blk (record s { expected = s.expected + 1 })
    | some stored ↦
        if not (block_hash stored == block_hash pending)
        then (
          err (block_hash_error (block_hash stored) (block_hash pending)),
          record s {
            blocks = delete_block_by_number s.expected s.blocks;
            sync = clear_synchronised s.sync;
          },
        )
        else read_current chain sender n pending blk (record s { expected = s.expected + 1 })
  ]

  unfoldable pub check_number : Chain → ℕ → ℕ → StoredBlock → ChainBlock → State → Outcome
  unfolding check_stored clear_sync
  check_number chain sender n pending blk s =
      if ltb s.expected n
      then (err (missing_blocks s.expected), clear_sync s)
      else if ltb n s.expected
      then (ok tt, s)
      else check_stored chain sender n pending blk s

  unfoldable pub process_propose_block_event : Chain → ℕ → ChainBlock → State → Outcome
  unfolding check_number decoded_commitments
  process_propose_block_event chain n blk s = elim chain.sender_address [
    | unreadable ↦ (err io_error, s)
    | absent ↦ (err panicked, s)
    | signed_by sender ↦ elim (decoded_commitments blk.transactions) [
      | none ↦ (err panicked, s)
      | some commitments ↦
          check_number chain sender n
            (record {
              layer2_block_number = n;
              commitments = commitments;
              proposer_address = sender;
            })
            blk s
    ]
  ]
