-- ===== src/Client/Events/Status.antt =====
-- `get_synchronisation_status` of
-- `nightfall_client/src/drivers/blockchain/nightfall_event_listener.rs`.
use nightfall_4_ce.Common.{ℕ, ◌-◌, Option, none, some, ltb, ◌==◌, if◌then◌else◌, Result, ok, err}
use nightfall_4_ce.Field.{Fr254}
use nightfall_4_ce.Client.Entities.Defs.{
  SynchronisationPhase, synchronized, ahead_of_chain, desynchronized,
}
use nightfall_4_ce.Client.Events.Defs.{
  ClientEventError, io_error, panicked, OnChainBlock, ClientState, decode_transactions,
  all_commitments,
}
use nightfall_4_ce.Proposer.Sync.Store.{StoredBlock, get_block_by_number}

module _ (block_hash : StoredBlock → Fr254) where
  -- The block on the chain against the stored one; the chain gives its proposer and its call, or fails.
  unfoldable pub compare_block :
      ℕ → StoredBlock → Option (ℕ × OnChainBlock) → Result ClientEventError SynchronisationPhase
  compare_block n stored none = err io_error
  compare_block n stored (some (proposer, blk)) = elim (decode_transactions blk.transactions) [
    | none ↦ err panicked
    | some txs ↦
        if block_hash (record {
          layer2_block_number = n;
          commitments = all_commitments txs;
          proposer_address = proposer;
        })
          == block_hash stored
        then ok synchronized
        else ok desynchronized
  ]

  -- The number of the chain and its block of the expected number are arguments.
  unfoldable pub get_synchronisation_status :
      Option ℕ
      → Option (ℕ × OnChainBlock)
      → ClientState
      → Result ClientEventError SynchronisationPhase
  unfolding compare_block
  get_synchronisation_status none on_chain s = err io_error
  get_synchronisation_status (some current) on_chain s =
      if ltb s.expected current
      then ok desynchronized
      else if ltb current s.expected
      then ok (ahead_of_chain (s.expected - current))
      else elim (get_block_by_number s.expected s.blocks) [
        | none ↦ ok synchronized
        | some stored ↦ compare_block s.expected stored on_chain
      ]
