-- ===== src/Proposer/Assembly/Mempool.antt =====
-- The pending deposits and client transactions: the records of
-- `nightfall_proposer/src/domain/entities.rs` and the collections of
-- `nightfall_proposer/src/driven/db/mongo_db.rs`, whose calls are taken to succeed.
use nightfall_4_ce.Common.{
  ℕ, Bool, true, false, ◌&&◌, ◌||◌, not, List, [], ◌∷◌, ◌++◌, map, Option, none, some, ◌==◌,
  if◌then◌else◌,
}
use nightfall_4_ce.Field.{Fr254}
use nightfall_4_ce.Client.Entities.Defs.{ClientTransaction}
use nightfall_4_ce.Proposer.Sync.Store.{StoredBlock}

pub record DepositData : Type 0 where
  pub nf_token_id : Fr254
  pub nf_slot_id : Fr254
  pub value : Fr254
  pub secret_hash : Fr254

pub record DepositDatawithFee : Type 0 where
  pub fee : Fr254
  pub deposit_data : DepositData

abbrev pub default_deposit_data : DepositData
default_deposit_data = record { nf_token_id = 0; nf_slot_id = 0; value = 0; secret_hash = 0 }

abbrev pub default_deposit : DepositDatawithFee
default_deposit = record { fee = 0; deposit_data = default_deposit_data }

pub record ClientTransactionWithMetaData : Type 0 where
  pub client_transaction : ClientTransaction
  pub block_l2 : Option ℕ
  pub in_mempool : Bool
  pub hash : List ℕ
  pub historic_roots : List Fr254

pub record Mempool : Type 0 where
  pub deposits : List DepositDatawithFee
  pub transactions : List ClientTransactionWithMetaData
  pub blocks : List StoredBlock

abbrev pub filter {ℓ} : {A : Type ℓ} → (A → Bool) → List A → List A
filter p [] = []
filter p (x ∷ xs) = let rest = filter p xs in if p x then x ∷ rest else rest

abbrev pub any {ℓ} : {A : Type ℓ} → (A → Bool) → List A → Bool
any p [] = false
any p (x ∷ xs) = p x || any p xs

abbrev pub flatten {ℓ} : {A : Type ℓ} → List (List A) → List A
flatten [] = []
flatten (xs ∷ xss) = xs ++ flatten xss

unfoldable pub same_hash : List ℕ → List ℕ → Bool
same_hash [] [] = true
same_hash [] (y ∷ ys) = false
same_hash (x ∷ xs) [] = false
same_hash (x ∷ xs) (y ∷ ys) = x == y && same_hash xs ys

-- An empty collection is a `none`.
unfoldable pub get_mempool_deposits : Mempool → Option (List DepositDatawithFee)
get_mempool_deposits m = elim m.deposits [ [] ↦ none | d ∷ ds ↦ some (d ∷ ds) ]

unfoldable pub get_all_mempool_client_transactions :
    Mempool → Option (List (List ℕ × ClientTransactionWithMetaData))
get_all_mempool_client_transactions m =
    elim (filter (λ (t : ClientTransactionWithMetaData). t.in_mempool) m.transactions) [
      | [] ↦ none
      | t ∷ ts ↦ some (map (λ (u : ClientTransactionWithMetaData). (u.hash, u)) (t ∷ ts))
    ]

-- The conditions of the deletion: the same secret hash and the same slot.
unfoldable pub same_deposit : DepositDatawithFee → DepositDatawithFee → Bool
same_deposit d e =
    d.deposit_data.secret_hash == e.deposit_data.secret_hash
    && d.deposit_data.nf_slot_id == e.deposit_data.nf_slot_id

unfoldable pub remove_mempool_deposits : List (List DepositDatawithFee) → Mempool → Mempool
remove_mempool_deposits used m = record m {
  deposits =
      filter (λ (d : DepositDatawithFee). not (any (same_deposit d) (flatten used))) m.deposits;
}

unfoldable pub set_in_mempool : List ClientTransactionWithMetaData → Bool → Mempool → Mempool
set_in_mempool txs flag m = record m {
  transactions =
      map
        (λ (t : ClientTransactionWithMetaData).
          if any (λ (u : ClientTransactionWithMetaData). same_hash u.hash t.hash) txs
          then record t { in_mempool = flag }
          else t)
        m.transactions;
}
