-- ===== src/Client/Events/Laws.antt =====
-- What the client's handler of proposed blocks does with a block, and what the listener makes of its
-- errors: `nightfall_client/src/driven/event_handlers/nightfall_event.rs`.
use Prim.Native.String.{String}
use nightfall_4_ce.Common.{
  ℕ, ◌+◌, ◌<◌, ◌≡◌, ◌≢◌, refl, ◌∙◌, arith, Bool, List, Option, none, some, ok, err, ltb-false,
  lt→ltb, inl, inr, ◌⊎◌,
}
use native.Mathlib.Decide.{dec_lt}
use nightfall_4_ce.Field.{Fr254}
use nightfall_4_ce.Conversions.Defs.{fr_of_u256}
use nightfall_4_ce.Client.Entities.Defs.{Point, CompressedSecrets}
use nightfall_4_ce.Client.Commitments.Store.{CommitmentEntry, store_commitments}
use nightfall_4_ce.Client.Events.Defs.{
  missing_blocks, block_hash_error, io_error, hash_error, invalid_calldata, panicked, OnChainBlock,
  ChainView, ClientState, DecodedTransaction, decode_transactions, all_commitments, record_on_chain,
  Decrypted, own_commitments,
}
use nightfall_4_ce.Client.Events.Handler.{
  Handled, finish_store, store_ours, check_root, process_block, check_stored,
  process_expected_block, process_propose_block_event, Calldata, NightfallEvent, block_proposed,
  deposit_escrowed, initialized, upgraded, authorities_updated, ownership_transferred, as_invalid,
  handle_event, restarts, after_event,
}
use nightfall_4_ce.Proposer.Sync.Store.{StoredBlock, get_block_by_number, store_block}

as_invalid-restarts : (h : Handled) → after_event (as_invalid h).0 ≢ restarts
unfolding as_invalid after_event
as_invalid-restarts (ok a, s) e = cc
as_invalid-restarts (err panicked, s) e = cc
as_invalid-restarts (err io_error, s) e = cc
as_invalid-restarts (err hash_error, s) e = cc
as_invalid-restarts (err invalid_calldata, s) e = cc
as_invalid-restarts (err (missing_blocks n), s) e = cc
as_invalid-restarts (err (block_hash_error f g), s) e = cc

abbrev pub pending_of : ℕ → ℕ → List DecodedTransaction → StoredBlock
pending_of n proposer txs = record {
  layer2_block_number = n;
  commitments = all_commitments txs;
  proposer_address = proposer;
}

module _ (hasher : ℕ → ℕ → ℕ) (block_hash : StoredBlock → Fr254) (to_hex : Fr254 → String)
    (hash : List Fr254 → Option Fr254) (decrypt : CompressedSecrets → Option Decrypted)
    (public_key : Point) (nullifier_key : Fr254) where
  -- Whatever the event, the state and the answers of the chain, the listener never restarts after
  -- it, since the handler hides that blocks are missing.
  pub handle_event-restarts :
      (chain : ChainView) (tx_hash : Option ℕ) (calldata : ℕ → Calldata) (e : NightfallEvent)
      (s : ClientState)
      → after_event
          (handle_event hasher block_hash to_hex hash decrypt public_key nullifier_key chain tx_hash
            calldata e s).0
        ≢ restarts
  unfolding handle_event
  handle_event-restarts chain tx_hash calldata (block_proposed n) s = as_invalid-restarts _
  handle_event-restarts chain (some h) calldata deposit_escrowed s = as_invalid-restarts (ok tt, s)
  handle_event-restarts chain none calldata deposit_escrowed s =
      as_invalid-restarts (err panicked, s)
  handle_event-restarts chain tx_hash calldata initialized s = as_invalid-restarts (ok tt, s)
  handle_event-restarts chain tx_hash calldata upgraded s = as_invalid-restarts (ok tt, s)
  handle_event-restarts chain tx_hash calldata authorities_updated s =
      as_invalid-restarts (ok tt, s)
  handle_event-restarts chain tx_hash calldata ownership_transferred s =
      as_invalid-restarts (ok tt, s)

  -- A block ahead of the expected one is an error, one behind it is skipped, and neither changes the state.
  pub process_propose_block_event_out_of_step :
      (chain : ChainView) (n tx_hash : ℕ) (blk : OnChainBlock) (s : ClientState)
      → n ≢ s.expected
      → ((s.expected < n)
          × (process_propose_block_event hasher block_hash to_hex hash decrypt public_key
                nullifier_key chain n tx_hash blk s
              ≡ (err (missing_blocks s.expected), s)))
        ⊎ ((n < s.expected)
            × (process_propose_block_event hasher block_hash to_hex hash decrypt public_key
                  nullifier_key chain n tx_hash blk s
                ≡ (ok tt, s)))
  unfolding process_propose_block_event
  process_propose_block_event_out_of_step chain n tx_hash blk s ne = elim (dec_lt s.expected n) [
    | yes behind ↦ inl (behind, rw (lt→ltb s.expected n behind) refl)
    | no level ↦
        let ahead : n < s.expected = omega arith in
        inr (ahead, rw (ltb-false s.expected n (omega arith), lt→ltb n s.expected ahead) refl)
  ]

  pub reaches_block :
      (chain : ChainView) (n tx_hash proposer : ℕ) (blk : OnChainBlock)
      (txs : List DecodedTransaction) (s : ClientState)
      → s.expected ≡ n
      → chain.proposer_address ≡ some proposer
      → decode_transactions blk.transactions ≡ some txs
      → get_block_by_number n s.blocks ≡ none
      → process_propose_block_event hasher block_hash to_hex hash decrypt public_key nullifier_key
          chain n tx_hash blk s
        ≡ process_block hasher block_hash to_hex hash decrypt public_key nullifier_key chain n
            tx_hash
            (pending_of n proposer txs)
            blk
            txs
            s
  unfolding process_propose_block_event
  reaches_block chain n tx_hash proposer blk txs s level found decoded unseen =
      rw
        (
          ltb-false s.expected n (omega arith),
          ltb-false n s.expected (omega arith),
          process_expected_block,
          found,
          process_expected_block,
          decoded,
          check_stored,
          unseen,
        )
        refl

  -- The expected block counts as seen before it is processed: where the number on the chain cannot be
  -- read, the call fails, and the same block is skipped from then on.
  pub process_propose_block_event_skipped :
      (chain chain' : ChainView) (n tx_hash proposer : ℕ) (blk : OnChainBlock)
      (txs : List DecodedTransaction) (s : ClientState)
      → s.expected ≡ n
      → chain.proposer_address ≡ some proposer
      → decode_transactions blk.transactions ≡ some txs
      → get_block_by_number n s.blocks ≡ none
      → chain.current_block ≡ none
      → (s' : ClientState) × (process_propose_block_event hasher block_hash to_hex hash decrypt
            public_key nullifier_key chain n tx_hash blk s
          ≡ (err io_error, s'))
        × (s'.tree ≡ s.tree)
        × (s'.blocks ≡ s.blocks)
        × (process_propose_block_event hasher block_hash to_hex hash decrypt public_key
              nullifier_key chain' n tx_hash blk s'
            ≡ (ok tt, s'))
  unfolding process_block process_propose_block_event
  process_propose_block_event_skipped chain chain' n tx_hash proposer blk txs s level found decoded
        unseen unread =
      (
        record s { expected = s.expected + 1 },
        reaches_block chain n tx_hash proposer blk txs s level found decoded unseen
            ∙ rw unread refl,
        refl,
        refl,
        rw (ltb-false (s.expected + 1) n (omega arith), lt→ltb n (s.expected + 1) (omega arith))
            refl,
      )

  -- After the append to the tree.
  pub stores_block :
      (n tx_hash root : ℕ) (dup_key_check : Bool) (pending : StoredBlock) (blk : OnChainBlock)
      (txs : List DecodedTransaction) (entries entries' : List CommitmentEntry) (s : ClientState)
      → fr_of_u256 blk.commitments_root ≡ ok root
      → own_commitments hash decrypt public_key nullifier_key txs ≡ ok entries
      → store_commitments entries dup_key_check (record_on_chain to_hex tx_hash txs s).entries
        ≡ (some tt, entries')
      → check_root hasher block_hash to_hex hash decrypt public_key nullifier_key dup_key_check
          tx_hash pending blk txs s
        ≡ (
          ok tt,
          record (record_on_chain to_hex tx_hash txs s) {
            entries = entries';
            blocks = store_block pending (record_on_chain to_hex tx_hash txs s).blocks;
          },
        )
  unfolding check_root finish_store
  stores_block n tx_hash root dup_key_check pending blk txs entries entries' s read mine stored =
      rw (check_root, read, store_ours, mine, store_ours, stored) refl
