-- ===== src/Proposer/Transactions/Pending.antt =====
-- The search of `find_transaction` of `nightfall_proposer/src/driven/db/mongo_db.rs` for a pending
-- transaction with a hash.
use nightfall_4_ce.Common.{
  ℕ, true, false, ◌≡◌, ◌≢◌, ◌⊎◌, refl, inl, inr, List, [], ◌∷◌, none, some, ◌==◌, ==→≡, ==_self,
  Bool-cases,
}
use nightfall_4_ce.Proposer.Assembly.Mempool.{ClientTransactionWithMetaData, same_hash}
use nightfall_4_ce.Proposer.Transactions.Defs.{find_transaction}

-- No transaction in the mempool has the hash.
abbrev pub NonePending : List ℕ → List ClientTransactionWithMetaData → Type 0
NonePending h [] = Unit {0}
NonePending h (t ∷ ts) = ((t.in_mempool ≡ false) ⊎ (t.hash ≢ h)) × NonePending h ts

pub same_hash_self : (h : List ℕ) → same_hash h h ≡ true
unfolding same_hash
same_hash_self [] = refl
same_hash_self (x ∷ xs) = rw (==_self x, same_hash_self xs) refl

same_hash→≡ : (g h : List ℕ) → same_hash g h ≡ true → g ≡ h
unfolding same_hash
same_hash→≡ [] [] e = refl
same_hash→≡ [] (y ∷ ys) e = cc
same_hash→≡ (x ∷ xs) [] e = cc
same_hash→≡ (x ∷ xs) (y ∷ ys) e = elim (Bool-cases (x == y)) [
  | inr differs ↦ (let no : false ≡ true = rw differs at e in cc)
  | inl agrees ↦
      (let heads : x ≡ y = ==→≡ x y agrees in
        let tails : xs ≡ ys = same_hash→≡ xs ys (rw agrees at e) in cc)
]

-- The search finds nothing exactly if no transaction in the mempool has the hash.
pub find_transaction-NonePending :
    (h : List ℕ) (ts : List ClientTransactionWithMetaData)
    → ((find_transaction h ts ≡ none) × NonePending h ts)
      ⊎ ((t : ClientTransactionWithMetaData) × (find_transaction h ts ≡ some t)
          × ¬ NonePending h ts)
unfolding find_transaction
find_transaction-NonePending h [] = inl (refl, tt)
find_transaction-NonePending h (t ∷ ts) =
    let tail = find_transaction-NonePending h ts in
    elim (Bool-cases t.in_mempool) [
      | inl pending ↦ elim (Bool-cases (same_hash t.hash h)) [
        | inl same ↦ inr (
          t,
          rw (find_transaction, same, pending) refl,
          λ p. elim p.0 [ inl gone ↦ cc | inr other ↦ other (same_hash→≡ t.hash h same) ],
        )
        | inr differs ↦
            let other : t.hash ≢ h =
              λ e. (let same : same_hash t.hash h ≡ true = rw e (same_hash_self h) in cc) in
            elim tail [
              | inl (absent, none_pending) ↦
                  inl (rw (find_transaction, differs) absent, (inr other, none_pending))
              | inr (u, found, refuted) ↦
                  inr (u, rw (find_transaction, differs) found, λ p. refuted p.1)
            ]
      ]
      | inr gone ↦ elim (Bool-cases (same_hash t.hash h)) [
        | inl same ↦ elim tail [
          | inl (absent, none_pending) ↦
              inl (rw (find_transaction, same, gone) absent, (inl gone, none_pending))
          | inr (u, found, refuted) ↦
              inr (u, rw (find_transaction, same, gone) found, λ p. refuted p.1)
        ]
        | inr differs ↦ elim tail [
          | inl (absent, none_pending) ↦
              inl (rw (find_transaction, differs) absent, (inl gone, none_pending))
          | inr (u, found, refuted) ↦
              inr (u, rw (find_transaction, differs) found, λ p. refuted p.1)
        ]
      ]
    ]
