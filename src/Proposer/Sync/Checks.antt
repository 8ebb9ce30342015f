-- ===== src/Proposer/Sync/Checks.antt =====
-- The checks at the head of `process_propose_block_event`, and what its last steps leave in the state
-- (`nightfall_proposer/src/driven/nightfall_event.rs`).
use nightfall_4_ce.Common.{
  ℕ, ◌+◌, ◌<◌, ◌≡◌, refl, sym, arith, Bool, true, false, List, some, ◌==◌, if◌then◌else◌,
  Bool-cases, inl, inr, ok, err, Option-cases, lt→ltb, ltb-false, trichotomy,
}
use nightfall_4_ce.Field.{Fr254}
use nightfall_4_ce.Client.Entities.Defs.{is_synchronised, set_synchronised, clear_synchronised}
use nightfall_4_ce.Proposer.Sync.Store.{
  StoredBlock, get_block_by_number, delete_block_by_number, IsStored, store_block-IsStored,
}
use nightfall_4_ce.Proposer.Sync.Defs.{
  missing_blocks, block_hash_error, Chain, ChainBlock, TreeOps, State, Outcome, clear_sync,
  set_sync, finish, read_current, check_stored, check_number,
}
use nightfall_4_ce.Proposer.Sync.Steps.{Ends, stopped, finished}

module _ (ops : TreeOps) (block_hash : StoredBlock → Fr254) where
  -- What the checks leave to be done.
  pub data Checked (n : ℕ) (chain : Chain) (sender : ℕ) (pending : StoredBlock) (blk : ChainBlock)
      (s : State ops block_hash) : Outcome ops block_hash → Type 0 where
    late :
        s.expected < n
        → Checked n chain sender pending blk s
            (err (missing_blocks s.expected), clear_sync ops block_hash s)
    early : n < s.expected → Checked n chain sender pending blk s (ok tt, s)
    forked :
        (stored : StoredBlock)
        → n ≡ s.expected
        → get_block_by_number s.expected s.blocks ≡ some stored
        → (block_hash stored == block_hash pending) ≡ false
        → Checked n chain sender pending blk s (
          err (block_hash_error (block_hash stored) (block_hash pending)),
          record s {
            blocks = delete_block_by_number s.expected s.blocks;
            sync = clear_synchronised s.sync;
          },
        )
    passed :
        n ≡ s.expected
        → Checked n chain sender pending blk s (
            read_current ops block_hash chain sender n pending blk
              (record s { expected = s.expected + 1 }))

  pub check_number-Checked :
      (chain : Chain) (sender n : ℕ) (pending : StoredBlock) (blk : ChainBlock)
      (s : State ops block_hash)
      → Checked n chain sender pending blk s
          (check_number ops block_hash chain sender n pending blk s)
  unfolding check_number check_stored
  check_number-Checked chain sender n pending blk s = elim (trichotomy s.expected n) [
    | inl later ↦ rw (check_number, lt→ltb s.expected n later) (late later)
    | inr (inl earlier) ↦
        rw
          (
            check_number,
            ltb-false s.expected n (omega arith),
            check_number,
            lt→ltb n s.expected earlier,
          )
          (early earlier)
    | inr (inr same) ↦
        rw
          (
            check_number,
            ltb-false s.expected n (omega arith),
            check_number,
            ltb-false n s.expected (omega arith),
          )
          (elim (Option-cases (get_block_by_number s.expected s.blocks)) [
            | inl absent ↦ rw (absent, check_stored) (passed (sym same))
            | inr (stored, found) ↦ elim (Bool-cases (block_hash stored == block_hash pending)) [
              | inl agrees ↦ rw (found, check_stored, agrees, check_stored) (passed (sym same))
              | inr differs ↦
                  rw (found, check_stored, differs, check_stored)
                    (forked stored (sym same) found differs)
            ]
          ])
  ]

  if_expected :
      (b : Bool) (s : State ops block_hash)
      → (if b then set_sync ops block_hash s else clear_sync ops block_hash s).expected ≡ s.expected
  unfolding set_sync clear_sync
  if_expected true s = refl
  if_expected false s = refl

  if_blocks :
      (b : Bool) (s : State ops block_hash)
      → (if b then set_sync ops block_hash s else clear_sync ops block_hash s).blocks ≡ s.blocks
  unfolding set_sync clear_sync
  if_blocks true s = refl
  if_blocks false s = refl

  if_sync :
      (b : Bool) (s : State ops block_hash)
      → is_synchronised (if b then set_sync ops block_hash s else clear_sync ops block_hash s).sync
        ≡ b
  unfolding set_sync clear_sync is_synchronised set_synchronised clear_synchronised
  if_sync true s = refl
  if_sync false s = refl

  pub Ends-expected :
      {current n : ℕ} {pending : StoredBlock} {s : State ops block_hash}
      {o : Outcome ops block_hash}
      → Ends ops block_hash current n pending s o
      → o.1.expected ≡ s.expected
  unfolding finish
  Ends-expected (stopped e t) = refl
  Ends-expected {current} {n} {s = s} (finished t) =
      if_expected (current == n + 1) (record s { trees = t })

  -- After a success: the number on the chain decides the status, and the block is stored.
  abbrev pub IsProcessed : ℕ → ℕ → StoredBlock → List StoredBlock → State ops block_hash → Type 0
  IsProcessed current n pending blocks s =
      (is_synchronised s.sync ≡ (current == n + 1)) × IsStored pending blocks s.blocks

  pub Ends-IsProcessed :
      {current n : ℕ} {pending : StoredBlock} {s : State ops block_hash}
      {o : Outcome ops block_hash}
      → Ends ops block_hash current n pending s o
      → o.0 ≡ ok tt
      → IsProcessed current n pending s.blocks o.1
  unfolding finish
  Ends-IsProcessed (stopped e t) h = cc
  Ends-IsProcessed {current} {n} {pending} {s} (finished t) h = (
    if_sync (current == n + 1) (record s { trees = t }),
    rw (if_blocks (current == n + 1) (record s { trees = t }))
        (store_block-IsStored pending s.blocks),
  )

  pub first_expected :
      (current : ℕ) (s : State ops block_hash)
      → (if current == 1 then set_sync ops block_hash s else s).expected ≡ s.expected
  unfolding set_sync
  first_expected current s = elim (Bool-cases (current == 1)) [
    | inl one ↦ rw one refl
    | inr more ↦ rw more refl
  ]

  pub first_blocks :
      (current : ℕ) (s : State ops block_hash)
      → (if current == 1 then set_sync ops block_hash s else s).blocks ≡ s.blocks
  unfolding set_sync
  first_blocks current s = elim (Bool-cases (current == 1)) [
    | inl one ↦ rw one refl
    | inr more ↦ rw more refl
  ]
