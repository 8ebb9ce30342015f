-- ===== src/Proposer/Transactions/Repeat.antt =====
-- Transactions and deposits that come again, and proofs that fail, in
-- `nightfall_proposer/src/driven/nightfall_client_transaction.rs`.
use nightfall_4_ce.Common.{
  ℕ, Bool, true, ◌&&◌, ◌≡◌, refl, ap, inl, inr, List, [], ◌∷◌, ◌++◌, Option, none, some, ◌==◌,
  Bool-cases, Option-cases, Result, ok, err,
}
use mathlib.Core.List.{append_assoc}
use nightfall_4_ce.Trees.Indexed.Tree.{LeafDbEntry}
use nightfall_4_ce.Client.Entities.Defs.{ClientTransaction}
use nightfall_4_ce.Proposer.Assembly.Mempool.{
  Mempool, ClientTransactionWithMetaData, DepositDatawithFee, same_hash,
}
use nightfall_4_ce.Proposer.Transactions.Defs.{
  ClientTransactionError, transaction_already_exists, proof_did_not_verify, hash_generation_failed,
  input_list, ProposerDb, Verifier, find_transaction, check_transaction, insert_transaction,
  store_if_valid, verify, public_inputs, process_nightfall_client_transaction,
}
use nightfall_4_ce.Proposer.Transactions.Pending.{same_hash_self}
use nightfall_4_ce.Proposer.Transactions.Deposits.{
  find_deposit, set_mempool_deposits, process_deposit_transaction,
}

-- The pending transaction at the end is found, if no other is.
find_transaction-append :
    (h : List ℕ) (t : ClientTransactionWithMetaData) (ts : List ClientTransactionWithMetaData)
    → same_hash t.hash h && t.in_mempool ≡ true
    → (u : ClientTransactionWithMetaData) × (find_transaction h (ts ++ t ∷ []) ≡ some u)
unfolding find_transaction
find_transaction-append h t [] is_it = (t, rw (find_transaction, is_it) refl)
find_transaction-append h t (u ∷ us) is_it =
    elim (Bool-cases (same_hash u.hash h && u.in_mempool)) [
      | inl here ↦ (u, rw (find_transaction, here) refl)
      | inr away ↦
          let (v, found) = find_transaction-append h t us is_it in
          (v, rw (find_transaction, away) found)
    ]

disjoint :
    {A : Type 0} (e : ClientTransactionError) (o : Result ClientTransactionError (Unit {0}))
    → o ≡ err e
    → o ≡ ok tt
    → A
disjoint e o refused stored = cc

not_stored :
    {A : Type 0} (e : ClientTransactionError) (s t : ProposerDb)
    (o : Result ClientTransactionError (Unit {0}) × ProposerDb)
    → o ≡ (err e, s)
    → o ≡ (ok tt, t)
    → A
not_stored e s t o refused stored = disjoint e o.0 (ap (λ p. p.0) refused) (ap (λ p. p.0) stored)

module _ (hasher : ℕ → ℕ → ℕ) (hash₃ : ℕ → ℕ → ℕ → ℕ) (default_entry : LeafDbEntry) where
  check_inserted :
      (tx : ClientTransaction) (h : List ℕ) (s : ProposerDb)
      → check_transaction hasher hash₃ default_entry tx h (insert_transaction tx h s)
        ≡ err transaction_already_exists
  unfolding check_transaction insert_transaction
  check_inserted tx h s =
      let (u, found) =
        find_transaction-append h
          (record {
            client_transaction = tx;
            block_l2 = none;
            in_mempool = true;
            hash = h;
            historic_roots = tx.historic_commitment_roots;
          })
          s.mempool.transactions (rw (same_hash_self h) refl) in
      rw (check_transaction, found) refl

  module _ {Proof Output : Type 0} (verifier : Verifier Proof Output)
      (hash : ClientTransaction → Proof → Option (List ℕ)) where
    inserted :
        (tx : ClientTransaction) (h : List ℕ) (s t : ProposerDb)
        (o : Result ClientTransactionError (Unit {0}))
        → store_if_valid tx h s o ≡ (ok tt, t)
        → t ≡ insert_transaction tx h s
    unfolding store_if_valid
    inserted tx h s t (err e) stored = cc
    inserted tx h s t (ok _) stored = cc

    -- A transaction that was accepted is refused as already existing when it comes again at once,
    -- and nothing changes.
    pub process_nightfall_client_transaction_again :
        (tx : ClientTransaction) (proof : Proof) (s t : ProposerDb)
        → process_nightfall_client_transaction hasher hash₃ default_entry verifier hash tx proof s
          ≡ (ok tt, t)
        → process_nightfall_client_transaction hasher hash₃ default_entry verifier hash tx proof t
          ≡ (err transaction_already_exists, t)
    unfolding process_nightfall_client_transaction store_if_valid
    process_nightfall_client_transaction_again tx proof s t e =
        elim (Option-cases (verify verifier proof (public_inputs tx))) [
          | inl unverified ↦
              not_stored proof_did_not_verify s t _
                (rw (process_nightfall_client_transaction, unverified) refl) e
          | inr (valid, verified) ↦ elim (Option-cases (hash tx proof)) [
            | inl unhashed ↦
                not_stored hash_generation_failed s t _
                  (rw (process_nightfall_client_transaction, verified, unhashed) refl) e
            | inr (h, hashed) ↦
                let same : t ≡ insert_transaction tx h s =
                  inserted tx h s t _
                    (rw (process_nightfall_client_transaction, verified, hashed) at e) in
                rw
                  (
                    process_nightfall_client_transaction,
                    verified,
                    hashed,
                    same,
                    check_inserted tx h s,
                  )
                  refl
          ]
        ]

    -- Whatever the library's check of the proof would answer, the transaction is treated the same:
    -- a proof that does not verify is not refused.
    pub process_nightfall_client_transaction_unverified :
        (check : Output → Bool) (tx : ClientTransaction) (proof : Proof) (s : ProposerDb)
        → process_nightfall_client_transaction hasher hash₃ default_entry
            (record verifier { verify_recursive_proof = check })
            hash
            tx
            proof
            s
          ≡ process_nightfall_client_transaction hasher hash₃ default_entry verifier hash tx proof s
    unfolding process_nightfall_client_transaction verify
    process_nightfall_client_transaction_unverified check tx proof s =
        elim (Bool-cases
          (verifier.sponge (input_list (public_inputs tx)) == verifier.pi_hash proof)) [
            | inr other ↦ rw (process_nightfall_client_transaction, verify, other) refl
            | inl same ↦ elim (Option-cases (verifier.recursive_output proof)) [
              | inl unread ↦ rw (process_nightfall_client_transaction, verify, same, unread) refl
              | inr (output, read) ↦
                  rw (process_nightfall_client_transaction, verify, same, read) refl
            ]
          ]

module _ (hash : DepositDatawithFee → Option (List ℕ)) where
  find_again :
      (h : Option (List ℕ)) (d : DepositDatawithFee) (m : Mempool)
      → find_deposit h m ≡ ok none
      → find_deposit h (record m { deposits = m.deposits ++ d ∷ [] }) ≡ ok none
  unfolding find_deposit
  find_again none d m e = refl
  find_again (some h) d m e = e

  -- Where the look-up of a deposit in the mempool finds nothing and does not fail, the deposit is
  -- accepted when it comes, and again when it comes at once a second time: it is then twice at the
  -- end of the deposits of the mempool, of which nothing else changes.
  pub process_deposit_transaction_again :
      (d : DepositDatawithFee) (m : Mempool)
      → find_deposit (hash d) m ≡ ok none
      → (process_deposit_transaction hash d m
          ≡ (ok tt, record m { deposits = m.deposits ++ d ∷ [] }))
        × (process_deposit_transaction hash d (record m { deposits = m.deposits ++ d ∷ [] })
            ≡ (ok tt, record m { deposits = m.deposits ++ d ∷ d ∷ [] }))
  unfolding process_deposit_transaction set_mempool_deposits
  process_deposit_transaction_again d m e = (
    rw (process_deposit_transaction, e) refl,
    rw (process_deposit_transaction, find_again (hash d) d m e)
        (ap
          (λ (ds : List DepositDatawithFee).
            (let o : Result ClientTransactionError (Unit {0}) = ok tt in
              (o, record m { deposits = ds })))
          (append_assoc m.deposits (d ∷ []) (d ∷ []))),
  )
