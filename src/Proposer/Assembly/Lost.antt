-- ===== src/Proposer/Assembly/Lost.antt =====
-- What is left of the mempool when the proof of a block fails, in `assemble_block` of
-- `nightfall_proposer/src/services/assemble_block.rs`.
use nightfall_4_ce.Common.{
  ℕ, Bool, true, false, ◌&&◌, not, ◌≡◌, refl, sym, ap, ◌∙◌, inl, inr, List, [], ◌∷◌, map, Option,
  Bool-cases, Result, ok, err, if◌then◌else◌,
}
use nightfall_4_ce.Field.{Fr254}
use nightfall_4_ce.Proposer.Assembly.Mempool.{
  DepositData, DepositDatawithFee, ClientTransactionWithMetaData, Mempool, filter, any, flatten,
  same_hash, same_deposit, set_in_mempool, remove_mempool_deposits,
}
use nightfall_4_ce.Proposer.Assembly.Defs.{
  BlockAssemblyError, choose, select, all_transactions, used_deposits_info,
  selected_client_transactions,
}
use nightfall_4_ce.Proposer.Assembly.Block.{Prepared, prepare_block_data, make_block}
use nightfall_4_ce.Proposer.Assembly.Laws.{included_deposits, prepare_block_data-cases, pending_txs}
use nightfall_4_ce.Proposer.Assembly.Assemble.{store_made, make_prepared, assemble_block}

-- Neither the transactions nor the deposits are pending.
pub record IsGone (groups : List (List DepositDatawithFee))
    (txs : List ClientTransactionWithMetaData) (m : Mempool) : Type 0 where
  pub transactions :
      filter
        (λ (t : ClientTransactionWithMetaData).
          t.in_mempool && any (λ (u : ClientTransactionWithMetaData). same_hash u.hash t.hash) txs)
        m.transactions
      ≡ []
  pub deposits :
      filter (λ (d : DepositDatawithFee). any (same_deposit d) (flatten groups)) m.deposits ≡ []

abbrev Content : Type 0
Content = List (List DepositDatawithFee) × List ClientTransactionWithMetaData

same_content : (o : Result BlockAssemblyError Content) (p q : Content) → o ≡ ok p → o ≡ ok q → p ≡ q
same_content o p q e e' = cc

filter_none :
    {A : Type 0} (p : A → Bool) (f : A → A) (xs : List A)
    → ((x : A) → p (f x) ≡ false)
    → filter p (map f xs) ≡ []
filter_none p f [] h = refl
filter_none p f (x ∷ xs) h = rw (filter, h x) (filter_none p f xs h)

filter_removed :
    {A : Type 0} (p : A → Bool) (xs : List A) → filter p (filter (λ x. not (p x)) xs) ≡ []
filter_removed p [] = refl
filter_removed p (x ∷ xs) = elim (Bool-cases (p x)) [
  | inl out ↦ rw (filter, out) (filter_removed p xs)
  | inr left ↦ rw (filter, left, filter, left) (filter_removed p xs)
]

and_false : (b : Bool) → b && false ≡ false
and_false true = refl
and_false false = refl

unset :
    (txs : List ClientTransactionWithMetaData) (t : ClientTransactionWithMetaData) (hit : Bool)
    → any (λ (u : ClientTransactionWithMetaData). same_hash u.hash t.hash) txs ≡ hit
    → (let t' = if hit then record t { in_mempool = false } else t in
        t'.in_mempool && any (λ (u : ClientTransactionWithMetaData). same_hash u.hash t'.hash) txs)
      ≡ false
unset txs t true e = refl
unset txs t false e = rw e (and_false t.in_mempool)

chosen-IsGone :
    (txs : List ClientTransactionWithMetaData) (groups : List (List DepositDatawithFee))
    (m : Mempool)
    → IsGone groups txs (set_in_mempool txs false (remove_mempool_deposits groups m))
unfolding set_in_mempool remove_mempool_deposits
chosen-IsGone txs groups m = record {
  transactions = filter_none _ _ m.transactions (λ t. unset txs t _ refl);
  deposits = filter_removed _ m.deposits;
}

choose-IsGone :
    (size : ℕ) (deposits : List DepositDatawithFee) (pending : List ClientTransactionWithMetaData)
    (m : Mempool) (groups : List (List DepositDatawithFee))
    (txs : List ClientTransactionWithMetaData)
    → (choose size deposits pending m).0 ≡ ok (groups, txs)
    → IsGone groups txs (choose size deposits pending m).1
unfolding choose
choose-IsGone size deposits pending m groups txs e =
    let selected = select size (all_transactions deposits pending) in
    let same =
      same_content _ (groups, txs)
        (used_deposits_info selected, selected_client_transactions selected) e refl in
    let groups_same : groups ≡ used_deposits_info selected = ap (λ (c : Content). c.0) same in
    let txs_same : txs ≡ selected_client_transactions selected = ap (λ (c : Content). c.1) same in
    rw (groups_same, txs_same)
      (chosen-IsGone (selected_client_transactions selected) (used_deposits_info selected) m)

module _ (hash : List Fr254 → Option Fr254) {P Block : Type 0}
    (create_deposit_proof : List DepositData → Option P)
    (prove_block : List P → List ClientTransactionWithMetaData → Option Block)
    (commitments_of : Block → List (List Fr254)) (our_address setting : ℕ) (m : Mempool) where
  make_prepared_failed :
      (out : Prepared) (groups : List (List DepositDatawithFee))
      (txs : List ClientTransactionWithMetaData) (e : BlockAssemblyError)
      → out.0 ≡ ok (groups, txs)
      → make_block create_deposit_proof prove_block setting (included_deposits groups) txs ≡ err e
      → make_prepared hash create_deposit_proof prove_block commitments_of our_address setting out
        ≡ (err e, out.1)
  unfolding make_prepared store_made
  make_prepared_failed (err e', m') groups txs e prepared failed = cc
  make_prepared_failed (ok (groups', txs'), m') groups txs e prepared failed =
      let same = same_content _ (groups', txs') (groups, txs) refl prepared in
      let groups_same : groups' ≡ groups = ap (λ (c : Content). c.0) same in
      let txs_same : txs' ≡ txs = ap (λ (c : Content). c.1) same in
      rw (groups_same, txs_same, failed) refl

  -- Where the content of a block was prepared and making the block of it fails, the assembly fails
  -- with that error, and no pending transaction and no deposit of the mempool that is left is one
  -- of the content, by their hashes, and by their secret hashes and slots.
  pub assemble_block-IsGone :
      (groups : List (List DepositDatawithFee)) (txs : List ClientTransactionWithMetaData)
      (e : BlockAssemblyError)
      → (prepare_block_data hash setting m).0 ≡ ok (groups, txs)
      → make_block create_deposit_proof prove_block setting (included_deposits groups) txs ≡ err e
      → ((assemble_block hash create_deposit_proof prove_block commitments_of our_address setting
            m).0
          ≡ err e)
        × IsGone groups txs
            (assemble_block hash create_deposit_proof prove_block commitments_of our_address setting
              m).1
  unfolding assemble_block
  assemble_block-IsGone groups txs e prepared failed =
      elim (prepare_block_data-cases hash setting m) [
        | inl (e', bad) ↦ cc
        | inr (deposits, m', allowed, chosen) ↦
            let stopped =
              make_prepared_failed (prepare_block_data hash setting m) groups txs e prepared
                failed in
            (
              ap (λ (o : Result BlockAssemblyError Block × Mempool). o.0) stopped,
              rw (stopped, chosen)
                  (choose-IsGone setting deposits (pending_txs hash setting m) m' groups txs
                    (ap (λ (o : Prepared). o.0) (sym chosen) ∙ prepared)),
            )
      ]
