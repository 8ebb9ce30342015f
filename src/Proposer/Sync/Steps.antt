-- ===== src/Proposer/Sync/Steps.antt =====
-- The steps of `process_propose_block_event` of `nightfall_proposer/src/driven/nightfall_event.rs` after
-- the check of the block's number: they fail with the trees changed at most, or they finish.
use nightfall_4_ce.Common.{
  ℕ, ◌≡◌, refl, Bool, true, false, not, ◌||◌, List, some, ◌==◌, if◌then◌else◌, inl, inr, ◌⊎◌, err,
  ok, Result, Result-cases, Option-cases,
}
use nightfall_4_ce.Field.{Fr254}
use nightfall_4_ce.Client.Entities.Defs.{is_synchronised}
use nightfall_4_ce.Conversions.Defs.{fr_of_u256}
use nightfall_4_ce.Trees.Types.{Failure}
use nightfall_4_ce.Proposer.Sync.Store.{StoredBlock}
use nightfall_4_ce.Proposer.Sync.Defs.{
  EventError, signed_by, decoded_commitments, event_error, on_trees, compare_root, io_error,
  panicked, Chain, ChainBlock, TreeOps, State, Outcome, set_sync, to_field, block_commitments,
  finish, record_root, add_nullifiers, add_commitments, update_trees, read_current, check_number,
  process_propose_block_event, block_nullifiers,
}

if_both : {A : Type 0} (P : A → Type 0) (b : Bool) {x y : A} → P x → P y → P (if b then x else y)
if_both P true p q = p
if_both P false p q = q

module _ (ops : TreeOps) (block_hash : StoredBlock → Fr254) where
  open ops use {Trees, commitment_root, append_commitments, insert_nullifiers, append_historic_root}

  -- From the state after the checks: a failure has changed the trees alone, a success finishes.
  pub data Ends (current n : ℕ) (pending : StoredBlock) (s : State ops block_hash)
      : Outcome ops block_hash → Type 0 where
    stopped :
        (e : EventError) (t : Trees) → Ends current n pending s (err e, record s { trees = t })
    finished :
        (t : Trees)
        → Ends current n pending s
            (finish ops block_hash current n pending (record s { trees = t }))

  again :
      {current n : ℕ} {pending : StoredBlock} {s : State ops block_hash} {t : Trees}
      {o : Outcome ops block_hash}
      → Ends current n pending (record s { trees = t }) o
      → Ends current n pending s o
  again (stopped e t) = stopped e t
  again (finished t) = finished t

  on_trees-Ends :
      {current n : ℕ} {pending : StoredBlock} (done : Result Failure (Unit {0}) × Trees)
      (s : State ops block_hash) (next : State ops block_hash → Outcome ops block_hash)
      → ((t : Trees)
          → Ends current n pending (record s { trees = t }) (next (record s { trees = t })))
      → Ends current n pending s (on_trees ops block_hash done s next)
  unfolding on_trees
  on_trees-Ends (err e, t) s next h = stopped (event_error e) t
  on_trees-Ends (ok _, t) s next h = again (h t)

  compare_root-Ends :
      (current n : ℕ) (pending : StoredBlock) (s : State ops block_hash)
      → Ends current n pending s (compare_root ops block_hash current n pending s)
  unfolding compare_root
  compare_root-Ends current n pending s = elim (Result-cases (commitment_root s.trees)) [
    | inl (e, failed) ↦ rw (failed, compare_root) (stopped (event_error e) s.trees)
    | inr (root, read) ↦ rw (read, compare_root) (finished s.trees)
  ]

  record_root-Ends :
      (current n : ℕ) (pending : StoredBlock) (blk : ChainBlock) (s : State ops block_hash)
      → Ends current n pending s (record_root ops block_hash current n pending blk s)
  unfolding record_root
  record_root-Ends current n pending blk s = elim (Result-cases (fr_of_u256 blk.commitments_root)) [
    | inl (e, bad) ↦ rw (bad, record_root) (stopped io_error s.trees)
    | inr (root, good) ↦
        rw (good, record_root)
          (on_trees-Ends (append_historic_root root s.trees) s
            (compare_root ops block_hash current n pending)
            (λ t. compare_root-Ends current n pending (record s { trees = t })))
  ]

  add_nullifiers-Ends :
      (current n : ℕ) (pending : StoredBlock) (blk : ChainBlock) (s : State ops block_hash)
      → Ends current n pending s (add_nullifiers ops block_hash current n pending blk s)
  unfolding add_nullifiers
  add_nullifiers-Ends current n pending blk s =
      elim (Option-cases (to_field (block_nullifiers blk.transactions))) [
        | inl bad ↦ rw (bad, add_nullifiers) (stopped panicked s.trees)
        | inr (fs, good) ↦
            rw (good, add_nullifiers)
              (on_trees-Ends (insert_nullifiers fs s.trees) s
                (record_root ops block_hash current n pending blk)
                (λ t. record_root-Ends current n pending blk (record s { trees = t })))
      ]

  add_commitments-Ends :
      (current n : ℕ) (pending : StoredBlock) (blk : ChainBlock) (s : State ops block_hash)
      → Ends current n pending s (add_commitments ops block_hash current n pending blk s)
  unfolding add_commitments
  add_commitments-Ends current n pending blk s =
      elim (Option-cases (to_field (block_commitments blk.transactions))) [
        | inl bad ↦ rw (bad, add_commitments) (stopped panicked s.trees)
        | inr (fs, good) ↦
            rw (good, add_commitments)
              (on_trees-Ends (append_commitments fs s.trees) s
                (add_nullifiers ops block_hash current n pending blk)
                (λ t. add_nullifiers-Ends current n pending blk (record s { trees = t })))
      ]

  update_trees-Ends :
      (chain : Chain) (sender current n : ℕ) (pending : StoredBlock) (blk : ChainBlock)
      (s : State ops block_hash)
      → Ends current n pending s (update_trees ops block_hash chain sender current n pending blk s)
  unfolding update_trees
  update_trees-Ends chain sender current n pending blk s =
      elim (Result-cases (commitment_root s.trees)) [
        | inl (e, failed) ↦ rw (failed, update_trees) (stopped (event_error e) s.trees)
        | inr (root, read) ↦
            rw (read, update_trees)
              (if_both (Ends current n pending s)
                (not (chain.our_address == sender) || not (is_synchronised s.sync) || root == 0)
                (add_commitments-Ends current n pending blk s)
                (record_root-Ends current n pending blk s))
      ]

  -- What both readings of the event give, before the number is looked at.
  abbrev pub pending_of : ℕ → List Fr254 → ℕ → StoredBlock
  pending_of n fs sender = record {
    layer2_block_number = n;
    commitments = fs;
    proposer_address = sender;
  }

  pub checked :
      (chain : Chain) (n : ℕ) (blk : ChainBlock) (s : State ops block_hash) (sender : ℕ)
      (fs : List Fr254)
      → chain.sender_address ≡ signed_by sender
      → decoded_commitments blk.transactions ≡ some fs
      → process_propose_block_event ops block_hash chain n blk s
        ≡ check_number ops block_hash chain sender n
            (record { layer2_block_number = n; commitments = fs; proposer_address = sender })
            blk
            s
  unfolding process_propose_block_event
  checked chain n blk s sender fs known good =
      rw (known, process_propose_block_event, good, process_propose_block_event) refl

  pub read_current-Ends :
      (chain : Chain) (sender n : ℕ) (pending : StoredBlock) (blk : ChainBlock)
      (s : State ops block_hash)
      → (read_current ops block_hash chain sender n pending blk s ≡ (err io_error, s))
        ⊎ ((current : ℕ) × (chain.current_block ≡ some current)
            × Ends current n pending
                (if current == 1 then set_sync ops block_hash s else s)
                (read_current ops block_hash chain sender n pending blk s))
  unfolding read_current
  read_current-Ends chain sender n pending blk s = elim (Option-cases chain.current_block) [
    | inl failed ↦ inl (rw (failed, read_current) refl)
    | inr (current, read) ↦ inr (
      current,
      read,
      rw (read, read_current)
          (update_trees-Ends chain sender current n pending blk
            (if current == 1 then set_sync ops block_hash s else s)),
    )
  ]
