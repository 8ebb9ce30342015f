-- ===== src/Proposer/Assembly/Laws.antt =====
-- `prepare_block_data` followed by `make_block`, as `assemble_block` of
-- `nightfall_proposer/src/services/assemble_block.rs` calls them.
use nightfall_4_ce.Common.{
  ℕ, suc, ◌+◌, ◌-◌, ◌≤◌, ◌≡◌, refl, ap, ◌∙◌, arith, ◌&&◌, ◌||◌, List, [], ◌∷◌, ◌++◌, map, Option,
  some, ltb, ◌==◌, length, length-append, length-map, length-replicate, replicate, Bool-cases,
  Option-cases, Result-cases, inl, inr, ◌⊎◌, ok, err,
}
use nightfall_4_ce.Field.{Fr254}
use nightfall_4_ce.Common.Sort.{sort}
use nightfall_4_ce.Proposer.Assembly.Mempool.{
  DepositData, DepositDatawithFee, default_deposit_data, ClientTransactionWithMetaData, Mempool,
  get_mempool_deposits, get_all_mempool_client_transactions,
}
use nightfall_4_ce.Proposer.Assembly.Groups.{AllFour, group_deposits_lem}
use nightfall_4_ce.Proposer.Assembly.Selected.{
  AllOne-candidates, AllOne-select, AllOne-parts, select_lem,
}
use nightfall_4_ce.Proposer.Assembly.Defs.{
  BlockAssemblyError, proving_error, insufficient_transactions, panicked, get_block_size,
  group_deposits, deposit_before, all_transactions, select, partition, partition_deposits,
  is_pending, or_empty, all_commitments_onchain, transactions_to_include_in_block,
  used_deposits_info, selected_client_transactions, choose,
}
use nightfall_4_ce.Proposer.Assembly.Block.{
  Prepared, prepare_block_data, make_block, deposit_proof, deposit_proofs, fill, compute_block,
  is_empty, clean, values,
}

-- The groups without their fees, as `assemble_block` hands them on.
unfoldable pub included_deposits : List (List DepositDatawithFee) → List (List DepositData)
included_deposits [] = []
included_deposits (g ∷ gs) =
    map (λ (d : DepositDatawithFee). d.deposit_data) g ∷ included_deposits gs

get_block_size_ok : (setting k : ℕ) → get_block_size setting ≡ ok k → k ≡ setting
unfolding get_block_size
get_block_size_ok setting k h =
    elim (Bool-cases (setting == 64 || setting == 256 || setting == 1024)) [
      | inl allowed ↦
          let same : get_block_size setting ≡ ok setting = rw (get_block_size, allowed) refl in cc
      | inr refused ↦
          let same : get_block_size setting ≡ err proving_error =
            rw (get_block_size, refused) refl in
          cc
    ]

-- What a success of the choice gives.
abbrev IsFair : ℕ → List (List DepositDatawithFee) × List ClientTransactionWithMetaData → Type 0
IsFair setting parts = AllFour parts.0 × (length parts.0 + length parts.1 ≤ setting)

choose-IsFair :
    (k : ℕ) (deposits : List DepositDatawithFee) (txs : List ClientTransactionWithMetaData)
    (m : Mempool)
    → (parts : List (List DepositDatawithFee) × List ClientTransactionWithMetaData) × ((choose k
          deposits txs m).0
        ≡ ok parts)
      × IsFair k parts
unfolding choose all_transactions
choose-IsFair k deposits txs m =
    let candidates = all_transactions deposits txs in
    let (fours, counted) = AllOne-parts (select k candidates) (
      AllOne-select k candidates (
        AllOne-candidates (group_deposits (sort deposit_before deposits)) txs
          (group_deposits_lem (sort deposit_before deposits)).0)) in
    let few = (select_lem k candidates).0 in
    (
      (
        used_deposits_info (select k candidates),
        selected_client_transactions (select k candidates),
      ),
      refl,
      (fours, omega (arith, counted, few)),
    )

module _ (hash : List Fr254 → Option Fr254) (setting : ℕ) (m : Mempool) where
  abbrev onchain : List Fr254
  onchain = all_commitments_onchain m.blocks

  abbrev pub pending_txs : List ClientTransactionWithMetaData
  pending_txs =
      (partition (is_pending onchain)
        (values (transactions_to_include_in_block (get_all_mempool_client_transactions m)))).0

  abbrev stale_txs : List ClientTransactionWithMetaData
  stale_txs =
      (partition (is_pending onchain)
        (values (transactions_to_include_in_block (get_all_mempool_client_transactions m)))).1

  -- The two ways out of `prepare_block_data`: an error, or the choice.
  pub prepare_block_data-cases :
      ((e : BlockAssemblyError) × ((prepare_block_data hash setting m).0 ≡ err e))
      ⊎ ((deposits : List DepositDatawithFee) × (m' : Mempool) × (get_block_size setting
            ≡ ok setting)
          × (prepare_block_data hash setting m ≡ choose setting deposits pending_txs m'))
  unfolding prepare_block_data
  prepare_block_data-cases = elim (Result-cases (get_block_size setting)) [
    | inl (e, bad) ↦ inl (e, rw (bad, prepare_block_data) refl)
    | inr (k, good) ↦
        let same : k ≡ setting = get_block_size_ok setting k good in
        elim (Option-cases (partition_deposits hash onchain (or_empty (get_mempool_deposits m)))) [
          | inl stuck ↦
              inl (panicked, rw (good, prepare_block_data, stuck, prepare_block_data) refl)
          | inr (parts, split) ↦ elim (Bool-cases (is_empty parts.0 && is_empty pending_txs)) [
            | inl idle ↦ inl (
              insufficient_transactions,
              rw (good, prepare_block_data, split, prepare_block_data, idle, prepare_block_data)
                  refl,
            )
            | inr busy ↦ inr (
              parts.0,
              clean parts.1 stale_txs m,
              good ∙ ap ok same,
              rw (good, prepare_block_data, split, prepare_block_data, busy, prepare_block_data)
                  (rw same refl),
            )
          ]
        ]
  ]

  -- What `prepare_block_data` selects fits the block: groups of exactly four deposits, and no more groups
  -- and client transactions together than the block's size, which is an allowed one.
  pub prepare_block_data-IsFair :
      (groups : List (List DepositDatawithFee)) (txs : List ClientTransactionWithMetaData)
      → (prepare_block_data hash setting m).0 ≡ ok (groups, txs)
      → AllFour groups
        × (length groups + length txs ≤ setting)
        × (get_block_size setting ≡ ok setting)
  prepare_block_data-IsFair groups txs h = elim prepare_block_data-cases [
    | inl (e, bad) ↦ cc
    | inr (deposits, m', allowed, chosen) ↦
        let (parts, made, fair) = choose-IsFair setting deposits pending_txs m' in
        let same : (groups, txs) ≡ parts = cc (ap (λ (p : Prepared). p.0) chosen) in
        let groups_same : groups ≡ parts.0 = cc same in
        let txs_same : txs ≡ parts.1 = cc same in
        rw (groups_same, txs_same) (fair.0, fair.1, allowed)
  ]

module _ {P Block : Type 0} (create_deposit_proof : List DepositData → Option P)
    (prove_block : List P → List ClientTransactionWithMetaData → Option Block)
    (provable : (ds : List DepositData)
      → length ds ≡ 4
      → (p : P) × (create_deposit_proof ds ≡ some p)) where
  deposit_proof_lem :
      (ds : List DepositData)
      → length ds ≡ 4
      → (p : P) × (deposit_proof create_deposit_proof prove_block ds ≡ ok p)
  unfolding deposit_proof
  deposit_proof_lem ds four =
      let (p, proved) = provable ds four in
      (p, rw (four, deposit_proof, proved, deposit_proof) refl)

  deposit_proofs_lem :
      (groups : List (List DepositDatawithFee))
      → AllFour groups
      → (ps : List P) × (deposit_proofs create_deposit_proof prove_block (included_deposits groups)
          ≡ ok ps)
        × (length ps ≡ length groups)
  unfolding deposit_proofs included_deposits
  deposit_proofs_lem [] all = ([], refl, refl)
  deposit_proofs_lem (g ∷ groups) all =
      let (p, proved) =
        deposit_proof_lem (map (λ (d : DepositDatawithFee). d.deposit_data) g)
          (length-map g (λ (d : DepositDatawithFee). d.deposit_data) ∙ all.0) in
      let (ps, rest, counted) = deposit_proofs_lem groups all.1 in
      (p ∷ ps, rw (proved, deposit_proofs, rest) refl, ap suc counted)

  -- Where every four deposits have a proof, the content that `prepare_block_data` answered becomes
  -- a full block: the prover of blocks gets as many deposit proofs and client transactions together
  -- as the block's size.
  pub make_block-full :
      (hash : List Fr254 → Option Fr254) (setting : ℕ) (m : Mempool)
      (groups : List (List DepositDatawithFee)) (txs : List ClientTransactionWithMetaData)
      → (prepare_block_data hash setting m).0 ≡ ok (groups, txs)
      → (ps : List P) × (length ps + length txs ≡ setting)
        × (make_block create_deposit_proof prove_block setting (included_deposits groups) txs
            ≡ compute_block create_deposit_proof prove_block ps txs)
  unfolding make_block fill
  make_block-full hash setting m groups txs h =
      let (fours, few, allowed) = prepare_block_data-IsFair hash setting m groups txs h in
      let (ps, proved, counted) = deposit_proofs_lem groups fours in
      let (p, spare) =
        provable
          (default_deposit_data ∷ default_deposit_data ∷ default_deposit_data ∷ default_deposit_data
            ∷ [])
          refl in
      elim (Bool-cases (ltb (length ps + length txs) setting)) [
        | inl room ↦
            let extra = replicate (setting - (length ps + length txs)) p in
            (
              ps ++ extra,
              omega (
                arith,
                length-append ps extra,
                length-replicate (setting - (length ps + length txs)) p,
                counted,
                few,
              ),
              rw (proved, make_block, allowed, make_block, fill, room, fill, spare) refl,
            )
        | inr full ↦ (
          ps,
          ground (arith, counted, few, full),
          rw (proved, make_block, allowed, make_block, fill, full, fill) refl,
        )
      ]
