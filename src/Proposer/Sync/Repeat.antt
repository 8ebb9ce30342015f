-- ===== src/Proposer/Sync/Repeat.antt =====
-- Events that come again, and a fork: `process_propose_block_event` of
-- `nightfall_proposer/src/driven/nightfall_event.rs`.
use nightfall_4_ce.Common.{
  ℕ, ◌+◌, ◌≡◌, ◌≢◌, refl, arith, List, none, some, ok, err, ltb-false, ==_false,
}
use nightfall_4_ce.Field.{Fr254}
use nightfall_4_ce.Client.Entities.Defs.{clear_synchronised}
use nightfall_4_ce.Proposer.Sync.Store.{
  StoredBlock, get_block_by_number, delete_block_by_number, Distinct, delete_block_gone,
}
use nightfall_4_ce.Proposer.Sync.Defs.{
  block_hash_error, io_error, Chain, ChainBlock, TreeOps, State, read_current, check_stored,
  check_number, process_propose_block_event,
}
use nightfall_4_ce.Proposer.Sync.Steps.{pending_of, checked}
use nightfall_4_ce.Proposer.Sync.Laws.{IsReadable, process_early, process_accepted}

module _ (ops : TreeOps) (block_hash : StoredBlock → Fr254) where
  -- An event with the expected number that was handled with success is handled again, by whatever
  -- reading of the same number, with success and no change of the state, where the senders of both
  -- can be read and the transactions of both convert to field elements.
  pub process_redelivered :
      (chain chain' : Chain) (blk blk' : ChainBlock) (s : State ops block_hash) (sender sender' : ℕ)
      (fs fs' : List Fr254)
      → IsReadable chain blk sender fs
      → IsReadable chain' blk' sender' fs'
      → (process_propose_block_event ops block_hash chain s.expected blk s).0 ≡ ok tt
      → process_propose_block_event ops block_hash chain' s.expected blk'
          (process_propose_block_event ops block_hash chain s.expected blk s).1
        ≡ (ok tt, (process_propose_block_event ops block_hash chain s.expected blk s).1)
  process_redelivered chain chain' blk blk' s sender sender' fs fs' reads reads' h =
      let (current, read, above, kept) =
        process_accepted ops block_hash chain blk s sender fs reads h in
      (process_early ops block_hash chain' s.expected blk'
        (process_propose_block_event ops block_hash chain s.expected blk s).1 sender' fs' reads'
        (omega (arith, above)))

  -- Where no block is stored with the expected number and the number on the chain cannot be read,
  -- the handler fails after it has counted the expected block: the trees and the stored blocks lack
  -- it, and a later delivery of it is accepted as old and changes nothing, where the senders of
  -- both events can be read and the transactions of both convert to field elements.
  pub process_lost :
      (chain chain' : Chain) (blk blk' : ChainBlock) (s : State ops block_hash) (sender sender' : ℕ)
      (fs fs' : List Fr254)
      → IsReadable chain blk sender fs
      → IsReadable chain' blk' sender' fs'
      → get_block_by_number s.expected s.blocks ≡ none
      → chain.current_block ≡ none
      → (process_propose_block_event ops block_hash chain s.expected blk s
          ≡ (err io_error, record s { expected = s.expected + 1 }))
        × (process_propose_block_event ops block_hash chain' s.expected blk'
              (record s { expected = s.expected + 1 })
            ≡ (ok tt, record s { expected = s.expected + 1 }))
  unfolding check_number check_stored read_current
  process_lost chain chain' blk blk' s sender sender' fs fs' reads reads' absent unread = (
    rw
        (
          checked ops block_hash chain s.expected blk s sender fs reads.0 reads.1,
          check_number,
          ltb-false s.expected s.expected (omega arith),
          check_stored,
          absent,
          read_current,
          unread,
        )
        refl,
    (process_early ops block_hash chain' s.expected blk' (record s { expected = s.expected + 1 })
        sender' fs' reads' (omega arith)),
  )

  -- For an event whose sender can be read and whose transactions convert to field elements, with
  -- the expected number, where a block with that number and another hash is stored and no number is
  -- stored twice: the handler reports both hashes, clears the status, keeps number and trees, and
  -- deletes that block, after which none is stored with the number.
  pub process_forked :
      (chain : Chain) (blk : ChainBlock) (s : State ops block_hash) (sender : ℕ) (fs : List Fr254)
      (stored : StoredBlock)
      → IsReadable chain blk sender fs
      → Distinct s.blocks
      → get_block_by_number s.expected s.blocks ≡ some stored
      → block_hash stored ≢ block_hash (pending_of ops block_hash s.expected fs sender)
      → (process_propose_block_event ops block_hash chain s.expected blk s ≡ (
        err (
            block_hash_error
              (block_hash stored)
              (block_hash (pending_of ops block_hash s.expected fs sender))),
        record s {
          blocks = delete_block_by_number s.expected s.blocks;
          sync = clear_synchronised s.sync;
        },
      ))
        × (get_block_by_number s.expected (delete_block_by_number s.expected s.blocks) ≡ none)
  unfolding check_number check_stored
  process_forked chain blk s sender fs stored reads distinct found differs = (
    rw
        (
          checked ops block_hash chain s.expected blk s sender fs reads.0 reads.1,
          check_number,
          ltb-false s.expected s.expected (omega arith),
          check_stored,
          found,
          ==_false (block_hash stored) (block_hash (pending_of ops block_hash s.expected fs sender))
              differs,
        )
        refl,
    delete_block_gone s.expected s.blocks distinct,
  )
