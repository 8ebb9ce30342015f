-- ===== src/Proposer/Transactions/Defs.antt =====
-- `process_nightfall_client_transaction` of
-- `nightfall_proposer/src/driven/nightfall_client_transaction.rs`, with the check of a proof in
-- `nightfall_client/src/driven/plonk_prover/plonk_proof.rs` and the look-ups in
-- `nightfall_proposer/src/driven/db/mongo_db.rs`. The nullifiers are an indexed tree, the historic roots
-- a mutable one. The library's transcripts and its check of a proof are arguments.
use nightfall_4_ce.Common.{
  ℕ, Bool, true, ◌&&◌, List, [], ◌∷◌, ◌++◌, Option, none, some, ◌==◌, if◌then◌else◌, Result, ok,
  err,
}
use nightfall_4_ce.Field.{Fr254}
use nightfall_4_ce.Trees.Mutable.Store.{MutableStore, is_leaf}
use nightfall_4_ce.Trees.Indexed.State.{IndexedStore}
use nightfall_4_ce.Trees.Indexed.Tree.{LeafDbEntry, get_non_membership_proof}
use nightfall_4_ce.Client.Entities.Defs.{ClientTransaction}
use nightfall_4_ce.Proposer.Assembly.Mempool.{Mempool, ClientTransactionWithMetaData, same_hash}

pub record PublicInputs : Type 0 where
  pub fee : Fr254
  pub roots : List Fr254
  pub commitments : List Fr254
  pub nullifiers : List Fr254
  pub compressed_secrets : List Fr254

-- `From<&ClientTransaction<P>> for PublicInputs`.
unfoldable pub public_inputs : ClientTransaction → PublicInputs
public_inputs tx = record {
  fee = tx.fee;
  roots = tx.historic_commitment_roots;
  commitments = tx.commitments;
  nullifiers = tx.nullifiers;
  compressed_secrets =
      let c = tx.compressed_secrets in
      c.secret_0 ∷ c.secret_1 ∷ c.secret_2 ∷ c.secret_3 ∷ c.secret_4 ∷ [];
}

-- `From<&PublicInputs> for Vec<Fr254>`.
unfoldable pub input_list : PublicInputs → List Fr254
input_list p =
    (p.fee ∷ []) ++ (p.roots ++ (p.commitments ++ (p.nullifiers ++ p.compressed_secrets)))

-- What a proof is made of, to the library: the hash of its public inputs, the form in which it is checked,
-- if it has one, and the check. `sponge` is the hash of a list of public inputs.
pub record Verifier (Proof Output : Type 0) : Type 0 where
  pub pi_hash : Proof → Fr254
  pub sponge : List Fr254 → Fr254
  pub recursive_output : Proof → Option Output
  pub verify_recursive_proof : Output → Bool

-- `ClientTransactionError`, and a panic.
pub data ClientTransactionError : Type 0 where
  invalid_transaction transaction_already_exists : ClientTransactionError
  transaction_not_on_chain proof_did_not_verify hash_generation_failed : ClientTransactionError
  could_not_store_transaction could_not_get_nullifier_tree : ClientTransactionError
  duplicate_nullifier commitment_root_unknown nullifiers_all_zero panicked : ClientTransactionError

pub record ProposerDb : Type 0 where
  pub mempool : Mempool
  pub nullifier_tree : IndexedStore
  pub historic_root_tree : MutableStore

-- The pending transaction with this hash.
unfoldable pub find_transaction :
    List ℕ → List ClientTransactionWithMetaData → Option ClientTransactionWithMetaData
find_transaction h [] = none
find_transaction h (t ∷ ts) =
    if same_hash t.hash h && t.in_mempool then some t else find_transaction h ts

unfoldable pub check_root : Fr254 → Fr254 → MutableStore → Result ClientTransactionError (Unit {0})
check_root root nullifier s = if nullifier == 0 then ok tt else elim (is_leaf root s) [
  | err _ ↦ err panicked
  | ok known ↦ if known then ok tt else err commitment_root_unknown
]

-- The roots with the nullifiers of the same index; the arrays of the source have four entries.
unfoldable pub check_roots :
    List Fr254 → List Fr254 → MutableStore → Result ClientTransactionError (Unit {0})
unfolding check_root
check_roots [] ns s = ok tt
check_roots (r ∷ rs) [] s = err panicked
check_roots (r ∷ rs) (n ∷ ns) s = elim (check_root r n s) [
  | err e ↦ err e
  | ok _ ↦ check_roots rs ns s
]

unfoldable pub insert_transaction : ClientTransaction → List ℕ → ProposerDb → ProposerDb
insert_transaction tx h s = record s {
  mempool = record (s.mempool) {
    transactions =
        s.mempool.transactions
        ++ record {
          client_transaction = tx;
          block_l2 = none;
          in_mempool = true;
          hash = h;
          historic_roots = tx.historic_commitment_roots;
        }
          ∷ [];
  };
}

-- What follows the checks: a transaction that passes them is stored.
unfoldable pub store_if_valid :
    ClientTransaction
    → List ℕ
    → ProposerDb
    → Result ClientTransactionError (Unit {0})
    → Result ClientTransactionError (Unit {0}) × ProposerDb
unfolding insert_transaction
store_if_valid tx h s (err e) = (err e, s)
store_if_valid tx h s (ok _) = (ok tt, insert_transaction tx h s)

-- `nullifiers[0].is_zero()`, of an array with four entries.
unfoldable pub first_is_zero : List Fr254 → Bool
first_is_zero [] = true
first_is_zero (n ∷ ns) = n == 0

module _ {Proof Output : Type 0} (verifier : Verifier Proof Output) where
  -- An error is a `none`.
  unfoldable pub verify : Proof → PublicInputs → Option Bool
  unfolding input_list
  verify proof inputs =
      if verifier.sponge (input_list inputs) == verifier.pi_hash proof
      then elim (verifier.recursive_output proof) [
        | none ↦ none
        | some output ↦ some (verifier.verify_recursive_proof output)
      ]
      else none

module _ (hasher : ℕ → ℕ → ℕ) (hash₃ : ℕ → ℕ → ℕ → ℕ) (default_entry : LeafDbEntry) where
  unfoldable pub check_nullifiers :
      List Fr254 → IndexedStore → Result ClientTransactionError (Unit {0})
  check_nullifiers [] s = ok tt
  check_nullifiers (n ∷ ns) s =
      if n == 0
      then check_nullifiers ns s
      else elim (get_non_membership_proof hasher hash₃ default_entry n s).0 [
        | err _ ↦ err duplicate_nullifier
        | ok _ ↦ check_nullifiers ns s
      ]

  -- The checks behind that of the proof, of a transaction with this hash.
  unfoldable pub check_transaction :
      ClientTransaction → List ℕ → ProposerDb → Result ClientTransactionError (Unit {0})
  unfolding find_transaction check_roots check_nullifiers first_is_zero
  check_transaction tx h s = elim (find_transaction h s.mempool.transactions) [
    | some _ ↦ err transaction_already_exists
    | none ↦ elim (check_roots tx.historic_commitment_roots tx.nullifiers s.historic_root_tree) [
      | err e ↦ err e
      | ok _ ↦ elim (check_nullifiers tx.nullifiers s.nullifier_tree) [
        | err e ↦ err e
        | ok _ ↦ if first_is_zero tx.nullifiers then err nullifiers_all_zero else ok tt
      ]
    ]
  ]

  module _ {Proof Output : Type 0} (verifier : Verifier Proof Output)
      (hash : ClientTransaction → Proof → Option (List ℕ)) where
    unfoldable pub process_nightfall_client_transaction :
        ClientTransaction
        → Proof
        → ProposerDb
        → Result ClientTransactionError (Unit {0}) × ProposerDb
    unfolding verify public_inputs check_transaction store_if_valid
    process_nightfall_client_transaction tx proof s =
        elim (verify verifier proof (public_inputs tx)) [
          | none ↦ (err proof_did_not_verify, s)
          | some _ ↦ elim (hash tx proof) [
            | none ↦ (err hash_generation_failed, s)
            | some h ↦ store_if_valid tx h s (check_transaction tx h s)
          ]
        ]
