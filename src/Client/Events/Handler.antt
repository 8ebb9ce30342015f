-- ===== src/Client/Events/Handler.antt =====
-- `handle_event`, `process_nightfall_calldata` and `process_propose_block_event` of
-- `nightfall_client/src/driven/event_handlers/nightfall_event.rs`, step by step, and what
-- `listen_for_events` of `nightfall_client/src/drivers/blockchain/nightfall_event_listener.rs` does with
-- the result. Block numbers are not negative. The notification of the webhook is left out.
use Prim.Native.String.{String}
use nightfall_4_ce.Common.{
  ℕ, ◌+◌, Bool, true, List, Option, none, some, ltb, ◌==◌, if◌then◌else◌, Result, ok, err,
}
use nightfall_4_ce.Field.{Fr254}
use nightfall_4_ce.Conversions.Defs.{fr_of_u256}
use nightfall_4_ce.Client.Entities.Defs.{Point, CompressedSecrets}
use nightfall_4_ce.Client.Commitments.Store.{CommitmentEntry, store_commitments}
use nightfall_4_ce.Client.Events.Defs.{
  ClientEventError, missing_blocks, block_hash_error, io_error, invalid_calldata, panicked,
  OnChainBlock, ChainView, ClientState, DecodedTransaction, decode_transactions, all_commitments,
  record_on_chain, Decrypted, own_commitments,
}
use nightfall_4_ce.Proposer.Sync.Store.{
  StoredBlock, get_block_by_number, store_block, delete_block_by_number,
}
use nightfall_4_ce.Trees.Mutable.Store.{get_root}
use nightfall_4_ce.Trees.Mutable.Defs.{append_sub_trees}

abbrev pub Handled : Type 0
Handled = Result ClientEventError (Unit {0}) × ClientState

-- `map_err`: a panic is no error that could be mapped.
unfoldable pub as_invalid : Handled → Handled
as_invalid (ok _, s) = (ok tt, s)
as_invalid (err panicked, s) = (err panicked, s)
as_invalid (err _, s) = (err invalid_calldata, s)

-- What the transaction of an event holds: nothing where the look-up fails, and a call of `propose_block`
-- or another function where it is decoded.
pub data Calldata : Type 0 where
  lookup_failed not_found undecodable other_call : Calldata
  propose_block : OnChainBlock → Calldata

pub data NightfallEvent : Type 0 where
  block_proposed : ℕ → NightfallEvent
  deposit_escrowed initialized upgraded authorities_updated ownership_transferred : NightfallEvent

unfoldable pub finish_store :
    StoredBlock → Option (Unit {0}) × List CommitmentEntry → ClientState → Handled
finish_store pending (none, entries) s = (err io_error, record s { entries = entries })
finish_store pending (some _, entries) s =
    (ok tt, record s { entries = entries; blocks = store_block pending s.blocks })

module _ (hasher : ℕ → ℕ → ℕ) (block_hash : StoredBlock → Fr254) (to_hex : Fr254 → String)
    (hash : List Fr254 → Option Fr254) (decrypt : CompressedSecrets → Option Decrypted)
    (public_key : Point) (nullifier_key : Fr254) where
  -- Our commitments are stored, while synchronising with no error for duplicates, and then the block.
  unfoldable pub store_ours : Bool → StoredBlock → List DecodedTransaction → ClientState → Handled
  unfolding finish_store
  store_ours dup_key_check pending txs s =
      elim (own_commitments hash decrypt public_key nullifier_key txs) [
        | err e ↦ (err e, s)
        | ok entries ↦ finish_store pending (store_commitments entries dup_key_check s.entries) s
      ]

  -- The root of the block is compared, and a difference logged.
  unfoldable pub check_root :
      Bool → ℕ → StoredBlock → OnChainBlock → List DecodedTransaction → ClientState → Handled
  unfolding store_ours
  check_root dup_key_check tx_hash pending blk txs s = elim (fr_of_u256 blk.commitments_root) [
    | err _ ↦ (err io_error, s)
    | ok _ ↦ store_ours dup_key_check pending txs (record_on_chain to_hex tx_hash txs s)
  ]

  -- All the commitments of the block go into the tree.
  unfoldable pub update_tree :
      Bool → ℕ → StoredBlock → OnChainBlock → List DecodedTransaction → ClientState → Handled
  unfolding check_root
  update_tree dup_key_check tx_hash pending blk txs s = elim (get_root s.tree) [
    | err _ ↦ (err io_error, s)
    | ok _ ↦
        let (appended, tree) = append_sub_trees hasher (all_commitments txs) true s.tree in
        elim appended [
          | err _ ↦ (err io_error, record s { tree = tree })
          | ok _ ↦ check_root dup_key_check tx_hash pending blk txs (record s { tree = tree })
        ]
  ]

  -- The block counts as seen from here on; the number on the chain says if we are still behind.
  unfoldable pub process_block :
      ChainView
      → ℕ
      → ℕ
      → StoredBlock
      → OnChainBlock
      → List DecodedTransaction
      → ClientState
      → Handled
  unfolding update_tree
  process_block chain n tx_hash pending blk txs s =
      let s' = record s { expected = s.expected + 1 } in
      elim chain.current_block [
        | none ↦ (err io_error, s')
        | some current ↦ update_tree (current == n + 1) tx_hash pending blk txs s'
      ]

  -- A stored block of this number must have the same hash.
  unfoldable pub check_stored :
      ChainView
      → ℕ
      → ℕ
      → StoredBlock
      → OnChainBlock
      → List DecodedTransaction
      → ClientState
      → Handled
  unfolding process_block
  check_stored chain n tx_hash pending blk txs s = elim (get_block_by_number n s.blocks) [
    | none ↦ process_block chain n tx_hash pending blk txs s
    | some existing ↦
        if block_hash existing == block_hash pending
        then process_block chain n tx_hash pending blk txs s
        else (
          err (block_hash_error (block_hash existing) (block_hash pending)),
          record s { blocks = delete_block_by_number n s.blocks },
        )
  ]

  -- The block that was expected: its proposer is looked up, and its words are decoded.
  unfoldable pub process_expected_block : ChainView → ℕ → ℕ → OnChainBlock → ClientState → Handled
  unfolding check_stored
  process_expected_block chain n tx_hash blk s = elim chain.proposer_address [
    | none ↦ (err io_error, s)
    | some proposer ↦ elim (decode_transactions blk.transactions) [
      | none ↦ (err panicked, s)
      | some txs ↦
          check_stored chain n tx_hash
            (record {
              layer2_block_number = n;
              commitments = all_commitments txs;
              proposer_address = proposer;
            })
            blk txs s
    ]
  ]

  unfoldable pub process_propose_block_event :
      ChainView → ℕ → ℕ → OnChainBlock → ClientState → Handled
  unfolding process_expected_block
  process_propose_block_event chain n tx_hash blk s =
      if ltb s.expected n
      then (err (missing_blocks s.expected), s)
      else if ltb n s.expected
      then (ok tt, s)
      else process_expected_block chain n tx_hash blk s

  unfoldable pub process_nightfall_calldata :
      ChainView → Option ℕ → ℕ → (ℕ → Calldata) → ClientState → Handled
  unfolding process_propose_block_event
  process_nightfall_calldata chain none n calldata s = (err io_error, s)
  process_nightfall_calldata chain (some tx_hash) n calldata s = elim (calldata tx_hash) [
    | lookup_failed ↦ (err io_error, s)
    | not_found ↦ (err panicked, s)
    | undecodable ↦ (err io_error, s)
    | other_call ↦ (ok tt, s)
    | propose_block blk ↦ process_propose_block_event chain n tx_hash blk s
  ]

  -- `process_deposit_escrowed_event` unwraps the transaction hash for its message.
  unfoldable pub handle_event :
      ChainView → Option ℕ → (ℕ → Calldata) → NightfallEvent → ClientState → Handled
  unfolding process_nightfall_calldata as_invalid
  handle_event chain tx_hash calldata (block_proposed n) s =
      as_invalid (process_nightfall_calldata chain tx_hash n calldata s)
  handle_event chain (some _) calldata deposit_escrowed s = (ok tt, s)
  handle_event chain none calldata deposit_escrowed s = (err panicked, s)
  handle_event chain tx_hash calldata _ s = (ok tt, s)

-- What `listen_for_events` does after an event.
pub data Listening : Type 0 where
  next_event restarts panics : Listening

unfoldable pub after_event : Result ClientEventError (Unit {0}) → Listening
after_event (ok _) = next_event
after_event (err (missing_blocks n)) = restarts
after_event (err _) = panics
