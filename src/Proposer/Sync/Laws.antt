-- ===== src/Proposer/Sync/Laws.antt =====
-- What `process_propose_block_event` of `nightfall_proposer/src/driven/nightfall_event.rs` does to the
-- number of the expected block, to the status and to the stored blocks.
use nightfall_4_ce.Common.{
  ℕ, ◌+◌, ◌<◌, ◌≡◌, ◌≢◌, refl, sym, ◌∙◌, arith, List, some, inl, inr, ◌⊎◌, ok, err, Option-cases,
  trichotomy, lt→ltb, ltb-false, trichotomy,
}
use nightfall_4_ce.Field.{Fr254}
use nightfall_4_ce.Client.Entities.Defs.{clear_synchronised}
use nightfall_4_ce.Proposer.Sync.Store.{StoredBlock}
use nightfall_4_ce.Proposer.Sync.Defs.{
  missing_blocks, Chain, ChainBlock, TreeOps, State, Outcome, clear_sync, TransactionSender,
  unreadable, absent, signed_by, decoded_commitments, read_current, check_number,
  process_propose_block_event,
}
use nightfall_4_ce.Proposer.Sync.Steps.{pending_of, checked, read_current-Ends}
use nightfall_4_ce.Proposer.Sync.Checks.{
  Checked, late, early, forked, passed, check_number-Checked, Ends-expected, IsProcessed,
  Ends-IsProcessed, first_expected, first_blocks,
}

-- The event's reads succeed: the sender of the transaction, and the words of its transactions as field
-- elements, of which the commitments are these.
abbrev pub IsReadable : Chain → ChainBlock → ℕ → List Fr254 → Type 0
IsReadable chain blk sender fs =
    (chain.sender_address ≡ signed_by sender) × (decoded_commitments blk.transactions ≡ some fs)

sender-cases :
    (t : TransactionSender)
    → (t ≡ unreadable) ⊎ ((t ≡ absent) ⊎ ((sender : ℕ) × (t ≡ signed_by sender)))
sender-cases unreadable = inl refl
sender-cases absent = inr (inl refl)
sender-cases (signed_by sender) = inr (inr (sender, refl))

module _ (ops : TreeOps) (block_hash : StoredBlock → Fr254) where
  process_late :
      (chain : Chain) (n : ℕ) (blk : ChainBlock) (s : State ops block_hash) (sender : ℕ)
      (fs : List Fr254)
      → IsReadable chain blk sender fs
      → s.expected < n
      → process_propose_block_event ops block_hash chain n blk s
        ≡ (err (missing_blocks s.expected), clear_sync ops block_hash s)
  unfolding check_number
  process_late chain n blk s sender fs reads later =
      rw
        (
          checked ops block_hash chain n blk s sender fs reads.0 reads.1,
          check_number,
          lt→ltb s.expected n later,
        )
        refl

  pub process_early :
      (chain : Chain) (n : ℕ) (blk : ChainBlock) (s : State ops block_hash) (sender : ℕ)
      (fs : List Fr254)
      → IsReadable chain blk sender fs
      → n < s.expected
      → process_propose_block_event ops block_hash chain n blk s ≡ (ok tt, s)
  unfolding check_number
  process_early chain n blk s sender fs reads earlier =
      rw
        (
          checked ops block_hash chain n blk s sender fs reads.0 reads.1,
          check_number,
          ltb-false s.expected n (omega arith),
          check_number,
          lt→ltb n s.expected earlier,
        )
        refl

  -- For an event whose sender and commitments can be read, a block with a number other than the
  -- expected one changes no number, tree or stored block: a later one is refused with the number
  -- that is missing and clears the status, an earlier one is accepted and leaves the state as it
  -- is.
  process_unexpected :
      (chain : Chain) (n : ℕ) (blk : ChainBlock) (s : State ops block_hash) (sender : ℕ)
      (fs : List Fr254)
      → IsReadable chain blk sender fs
      → n ≢ s.expected
      → (s.expected < n)
          × (process_propose_block_event ops block_hash chain n blk s
              ≡ (err (missing_blocks s.expected), record s { sync = clear_synchronised s.sync }))
        ⊎ (n < s.expected) × (process_propose_block_event ops block_hash chain n blk s ≡ (ok tt, s))
  unfolding clear_sync
  process_unexpected chain n blk s sender fs reads other = elim (trichotomy s.expected n) [
    | inl later ↦ inl (later, process_late chain n blk s sender fs reads later)
    | inr (inl earlier) ↦ inr (earlier, process_early chain n blk s sender fs reads earlier)
    | inr (inr same) ↦ absurd (other (sym same))
  ]

  read_expected :
      (chain : Chain) (sender n : ℕ) (pending : StoredBlock) (blk : ChainBlock)
      (s : State ops block_hash)
      → (read_current ops block_hash chain sender n pending blk s).1.expected ≡ s.expected
  read_expected chain sender n pending blk s =
      elim (read_current-Ends ops block_hash chain sender n pending blk s) [
        | inl failed ↦ rw failed refl
        | inr (current, read, ends) ↦
            Ends-expected ops block_hash ends ∙ first_expected ops block_hash current s
      ]

  Checked-expected :
      {n : ℕ} {chain : Chain} {sender : ℕ} {pending : StoredBlock} {blk : ChainBlock}
      {s : State ops block_hash} {o : Outcome ops block_hash}
      → Checked ops block_hash n chain sender pending blk s o
      → (o.1.expected ≡ s.expected) ⊎ ((n ≡ s.expected) × (o.1.expected ≡ s.expected + 1))
  unfolding clear_sync
  Checked-expected (late h) = inl refl
  Checked-expected (early h) = inl refl
  Checked-expected (forked stored e found differs) = inl refl
  Checked-expected {n} {chain} {sender} {pending} {blk} {s} (passed e) =
      inr (e, read_expected chain sender n pending blk (record s { expected = s.expected + 1 }))

  -- Whatever the reads, the trees and the chain give, the number of the expected block is unchanged, or
  -- the event carries that very block and the number goes up by one.
  pub process_expected :
      (chain : Chain) (n : ℕ) (blk : ChainBlock) (s : State ops block_hash)
      → ((process_propose_block_event ops block_hash chain n blk s).1.expected ≡ s.expected)
        ⊎ ((n ≡ s.expected)
            × ((process_propose_block_event ops block_hash chain n blk s).1.expected
                ≡ s.expected + 1))
  unfolding process_propose_block_event
  process_expected chain n blk s = elim (sender-cases chain.sender_address) [
    | inl failed ↦ inl (rw (failed, process_propose_block_event) refl)
    | inr (inl missing) ↦ inl (rw (missing, process_propose_block_event) refl)
    | inr (inr (sender, known)) ↦ elim (Option-cases (decoded_commitments blk.transactions)) [
      | inl failed ↦
          inl (rw (known, process_propose_block_event, failed, process_propose_block_event) refl)
      | inr (fs, good) ↦ rw (checked ops block_hash chain n blk s sender fs known good) (
          Checked-expected (
            check_number-Checked ops block_hash chain sender n
              (pending_of ops block_hash n fs sender) blk s))
    ]
  ]

  abbrev Accepted : ℕ → Chain → StoredBlock → State ops block_hash → Outcome ops block_hash → Type 0
  Accepted n chain pending s o =
      (current : ℕ) × (chain.current_block ≡ some current)
      × (o.1.expected ≡ s.expected + 1)
      × IsProcessed ops block_hash current n pending s.blocks o.1

  accepted :
      {n : ℕ} {chain : Chain} {sender : ℕ} {pending : StoredBlock} {blk : ChainBlock}
      {s : State ops block_hash} {o : Outcome ops block_hash}
      → Checked ops block_hash n chain sender pending blk s o
      → n ≡ s.expected
      → o.0 ≡ ok tt
      → Accepted n chain pending s o
  accepted (late later) e h = absurd (omega arith)
  accepted (early earlier) e h = absurd (omega arith)
  accepted (forked stored e' found differs) e h = cc
  accepted {n} {chain} {sender} {pending} {blk} {s} (passed e') e h =
      elim (read_current-Ends ops block_hash chain sender n pending blk
        (record s { expected = s.expected + 1 })) [
          | inl failed ↦ cc
          | inr (current, read, ends) ↦ (
            current,
            read,
            read_expected chain sender n pending blk (record s { expected = s.expected + 1 }),
            rw (first_blocks ops block_hash current (record s { expected = s.expected + 1 })) at
                (Ends-IsProcessed ops block_hash ends h),
          )
        ]

  -- For an event whose sender can be read and whose transactions convert to field elements, a
  -- success with the expected block has read the number on the chain: the proposer is synchronised
  -- exactly if that number is the next block's, and the number of the expected block has gone up by
  -- one. The block is then found under its number: it itself if none was stored there, or else the
  -- stored one with its commitments. Every other number finds the block that it found before.
  pub process_accepted :
      (chain : Chain) (blk : ChainBlock) (s : State ops block_hash) (sender : ℕ) (fs : List Fr254)
      → IsReadable chain blk sender fs
      → (process_propose_block_event ops block_hash chain s.expected blk s).0 ≡ ok tt
      → (current : ℕ) × (chain.current_block ≡ some current)
        × ((process_propose_block_event ops block_hash chain s.expected blk s).1.expected
            ≡ s.expected + 1)
        × IsProcessed ops block_hash current s.expected
            (pending_of ops block_hash s.expected fs sender)
            s.blocks
            (process_propose_block_event ops block_hash chain s.expected blk s).1
  process_accepted chain blk s sender fs reads =
      rw (checked ops block_hash chain s.expected blk s sender fs reads.0 reads.1) (λ h.
        accepted
          (check_number-Checked ops block_hash chain sender s.expected
            (pending_of ops block_hash s.expected fs sender) blk s)
          refl h)
