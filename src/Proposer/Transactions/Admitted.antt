-- ===== src/Proposer/Transactions/Admitted.antt =====
-- What the checks of `process_nightfall_client_transaction` in
-- `nightfall_proposer/src/driven/nightfall_client_transaction.rs` admit, where the nullifiers are a tree
-- that agrees with its leaves.
use nightfall_4_ce.Common.{
  ℕ, Bool, true, false, ◌≡◌, ◌≢◌, ◌⊎◌, refl, ap, inl, inr, List, [], ◌∷◌, ◌++◌, Option, none, some,
  ◌==◌, ==→≡, Bool-cases, Option-cases, Result, ok, err, if◌then◌else◌,
}
use nightfall_4_ce.Field.{Fr254}
use nightfall_4_ce.Trees.Types.{TreeMetadata}
use nightfall_4_ce.Trees.Mutable.Store.{MutableStore}
use nightfall_4_ce.Trees.Indexed.Lookup.{lookup}
use nightfall_4_ce.Trees.Indexed.State.{IndexedStore}
use nightfall_4_ce.Trees.Indexed.Tree.{LeafDbEntry}
use nightfall_4_ce.Trees.Indexed.Membership.{
  IsIndexed, get_non_membership_proof-fold_path, get_non_membership_proof_refused,
}
use nightfall_4_ce.Client.Entities.Defs.{ClientTransaction}
use nightfall_4_ce.Trees.Mutable.Leaf.{IsLeaf, is_leaf-IsLeaf}
use nightfall_4_ce.Proposer.Transactions.Pending.{NonePending, find_transaction-NonePending}
use nightfall_4_ce.Proposer.Transactions.Defs.{
  ClientTransactionError, commitment_root_unknown, panicked, duplicate_nullifier,
  transaction_already_exists, nullifiers_all_zero, ProposerDb, Verifier, check_root, check_roots,
  check_nullifiers, check_transaction, first_is_zero, insert_transaction, store_if_valid, verify,
  public_inputs, process_nightfall_client_transaction,
}

-- A check passes exactly if its condition holds.
data Checked (P : Type 0) : Result ClientTransactionError (Unit {0}) → Type 0 where
  passes : P → Checked P (ok tt)
  fails : (e : ClientTransactionError) → ¬ P → Checked P (err e)

both-Checked :
    {P Q : Type 0} (o o' : Result ClientTransactionError (Unit {0}))
    → Checked P o
    → Checked Q o'
    → Checked (P × Q) (elim o [ err e ↦ err e | ok _ ↦ o' ])
both-Checked _ _ (passes p) (passes q) = passes (p, q)
both-Checked _ _ (passes p) (fails e refuted) = fails e (λ pq. refuted pq.1)
both-Checked _ o' (fails e refuted) second = fails e (λ pq. refuted pq.0)

map-Checked :
    {P Q : Type 0} (o : Result ClientTransactionError (Unit {0}))
    → (P → Q)
    → (Q → P)
    → Checked P o
    → Checked Q o
map-Checked _ f g (passes p) = passes (f p)
map-Checked _ f g (fails e refuted) = fails e (λ q. refuted (g q))

-- The root is a leaf of the tree, where its nullifier is not zero.
abbrev pub IsKnown : Fr254 → Fr254 → MutableStore → Type 0
IsKnown root nullifier s = (nullifier ≡ 0) ⊎ IsLeaf root s

-- A root without a nullifier is not known.
abbrev pub AllKnown : List Fr254 → List Fr254 → MutableStore → Type 0
AllKnown [] ns s = Unit {0}
AllKnown (r ∷ rs) [] s = true ≡ false
AllKnown (r ∷ rs) (n ∷ ns) s = IsKnown r n s × AllKnown rs ns s

-- Every nullifier is zero or not stored.
abbrev pub AllUnspent : List Fr254 → IndexedStore → Type 0
AllUnspent [] s = Unit {0}
AllUnspent (n ∷ ns) s = ((n ≡ 0) ⊎ (lookup n s.leaves ≡ none)) × AllUnspent ns s

-- There is a first nullifier, and it is not zero.
abbrev pub IsNonZeroFirst : List Fr254 → Type 0
IsNonZeroFirst [] = true ≡ false
IsNonZeroFirst (n ∷ ns) = n ≢ 0

-- What is asked of a transaction with a hash: no pending one has it, the roots are known, the nullifiers
-- unspent, and the first is not zero.
abbrev pub IsAdmitted : ClientTransaction → List ℕ → ProposerDb → Type 0
IsAdmitted tx h s =
    NonePending h s.mempool.transactions
    × (AllKnown tx.historic_commitment_roots tx.nullifiers s.historic_root_tree
        × (AllUnspent tx.nullifiers s.nullifier_tree × IsNonZeroFirst tx.nullifiers))

-- The state with the transaction as the last one of the mempool.
abbrev pub with_pending : ClientTransaction → List ℕ → ProposerDb → ProposerDb
with_pending tx h s = record s {
  mempool = record (s.mempool) {
    transactions =
        s.mempool.transactions
        ++ record {
          client_transaction = tx;
          block_l2 = none;
          in_mempool = true;
          hash = h;
          historic_roots = tx.historic_commitment_roots;
        }
          ∷ [];
  };
}

admitted :
    (tx : ClientTransaction) (h : List ℕ) (s : ProposerDb)
    (o : Result ClientTransactionError (Unit {0}))
    → Checked (IsAdmitted tx h s) o
    → (IsAdmitted tx h s × (store_if_valid tx h s o ≡ (ok tt, with_pending tx h s)))
      ⊎ ((e : ClientTransactionError) × (¬ IsAdmitted tx h s)
          × (store_if_valid tx h s o ≡ (err e, s)))
unfolding store_if_valid insert_transaction
admitted tx h s _ (passes a) = inl (a, refl)
admitted tx h s _ (fails e refuted) = inr (e, refuted, refl)

not_zero : (n : ℕ) → (n == 0) ≡ false → n ≢ 0
not_zero n h e = (let same : (n == 0) ≡ true = ap (λ (t : ℕ). t == 0) e in cc)

first-Checked :
    (ns : List Fr254)
    → Checked (IsNonZeroFirst ns) (if first_is_zero ns then err nullifiers_all_zero else ok tt)
unfolding first_is_zero
first-Checked [] = fails nullifiers_all_zero (λ e. cc)
first-Checked (n ∷ ns) = elim (Bool-cases (n == 0)) [
  | inl is_zero ↦ rw is_zero (fails nullifiers_all_zero (λ other. other (==→≡ n 0 is_zero)))
  | inr non_zero ↦ rw non_zero (passes (not_zero n non_zero))
]

check_root-Checked : (r n : Fr254) (s : MutableStore) → Checked (IsKnown r n s) (check_root r n s)
unfolding check_root
check_root-Checked r n s = elim (Bool-cases (n == 0)) [
  | inl is_zero ↦ rw is_zero (passes (inl (==→≡ n 0 is_zero)))
  | inr non_zero ↦ elim (is_leaf-IsLeaf r s) [
    | inl (known, leaf) ↦ rw (non_zero, known) (passes (inr leaf))
    | inr (inl (unknown, other)) ↦
        rw (non_zero, unknown)
          (fails commitment_root_unknown
            (λ k. elim k [ inl z ↦ not_zero n non_zero z | inr leaf ↦ other leaf ]))
    | inr (inr (e, unread, other)) ↦
        rw (non_zero, unread)
          (fails panicked (λ k. elim k [ inl z ↦ not_zero n non_zero z | inr leaf ↦ other leaf ]))
  ]
]

check_roots-Checked :
    (rs ns : List Fr254) (s : MutableStore) → Checked (AllKnown rs ns s) (check_roots rs ns s)
unfolding check_roots
check_roots-Checked [] ns s = passes tt
check_roots-Checked (r ∷ rs) [] s = fails panicked (λ e. cc)
check_roots-Checked (r ∷ rs) (n ∷ ns) s =
    both-Checked (check_root r n s) (check_roots rs ns s) (check_root-Checked r n s)
      (check_roots-Checked rs ns s)

module _ (hasher : ℕ → ℕ → ℕ) (hash₃ : ℕ → ℕ → ℕ → ℕ) (default_entry : LeafDbEntry) where
  check_nullifiers-Checked :
      (m : TreeMetadata) (f : ℕ → ℕ) (ns : List Fr254) (s : IndexedStore)
      → IsIndexed hasher hash₃ default_entry m f s
      → Checked (AllUnspent ns s) (check_nullifiers hasher hash₃ default_entry ns s)
  unfolding check_nullifiers
  check_nullifiers-Checked m f [] s d = passes tt
  check_nullifiers-Checked m f (n ∷ ns) s d =
      let rest = check_nullifiers-Checked m f ns s d in
      elim (Bool-cases (n == 0)) [
        | inl is_zero ↦
            rw (check_nullifiers, is_zero)
              (map-Checked _ (λ u. (inl (==→≡ n 0 is_zero), u)) (λ u. u.1) rest)
        | inr non_zero ↦ elim (Option-cases (lookup n s.leaves)) [
          | inl absent ↦
              let (low, proof, proved, valued, placed, folded, below, above) =
                get_non_membership_proof-fold_path hasher hash₃ default_entry m f s n d
                  (not_zero n non_zero) absent in
              rw (check_nullifiers, non_zero, proved)
                (map-Checked _ (λ u. (inr absent, u)) (λ u. u.1) rest)
          | inr (l, stored) ↦
              rw
                (
                  check_nullifiers,
                  non_zero,
                  get_non_membership_proof_refused hasher hash₃ default_entry s n (inr (l, stored)),
                )
                (fails duplicate_nullifier
                  (λ u. elim u.0 [ inl z ↦ not_zero n non_zero z | inr absent ↦ cc ]))
        ]
      ]

  check_transaction-Checked :
      (m : TreeMetadata) (f : ℕ → ℕ) (tx : ClientTransaction) (h : List ℕ) (s : ProposerDb)
      → IsIndexed hasher hash₃ default_entry m f s.nullifier_tree
      → Checked (IsAdmitted tx h s) (check_transaction hasher hash₃ default_entry tx h s)
  unfolding check_transaction
  check_transaction-Checked m f tx h s d =
      let roots =
        check_roots-Checked tx.historic_commitment_roots tx.nullifiers s.historic_root_tree in
      let unspent = check_nullifiers-Checked m f tx.nullifiers s.nullifier_tree d in
      elim (find_transaction-NonePending h s.mempool.transactions) [
        | inr (t, found, refuted) ↦
            rw (check_transaction, found) (fails transaction_already_exists (λ a. refuted a.0))
        | inl (new, none_pending) ↦
            rw (check_transaction, new)
              (map-Checked _ (λ a. (none_pending, a)) (λ a. a.1)
                (both-Checked _ _ roots (both-Checked _ _ unspent (first-Checked tx.nullifiers))))
      ]

  module _ {Proof Output : Type 0} (verifier : Verifier Proof Output)
      (hash : ClientTransaction → Proof → Option (List ℕ)) where
    -- Where the nullifier tree agrees with its leaves, the check of the proof gives an answer,
    -- whatever it is, and the transaction has a hash: either no pending transaction has that hash,
    -- of every root beside a nullifier other than zero the first node with this value is a leaf of
    -- the historic root tree, no nullifier other than zero is stored in the nullifier tree, and the
    -- first one is not zero, and the transaction is accepted and comes last in the mempool, as
    -- pending and with its hash, while nothing else changes; or one of these fails, and the call
    -- ends with an error or a panic and nothing changes.
    pub process_nightfall_client_transaction_lem :
        (m : TreeMetadata) (f : ℕ → ℕ) (tx : ClientTransaction) (proof : Proof) (h : List ℕ)
        (valid : Bool) (s : ProposerDb)
        → IsIndexed hasher hash₃ default_entry m f s.nullifier_tree
        → verify verifier proof (public_inputs tx) ≡ some valid
        → hash tx proof ≡ some h
        → (IsAdmitted tx h s
            × (process_nightfall_client_transaction hasher hash₃ default_entry verifier hash tx
                  proof s
                ≡ (ok tt, with_pending tx h s)))
          ⊎ ((e : ClientTransactionError) × (¬ IsAdmitted tx h s)
              × (process_nightfall_client_transaction hasher hash₃ default_entry verifier hash tx
                    proof s
                  ≡ (err e, s)))
    unfolding process_nightfall_client_transaction
    process_nightfall_client_transaction_lem m f tx proof h valid s d verified hashed =
        rw (process_nightfall_client_transaction, verified, hashed)
          (admitted tx h s _ (check_transaction-Checked m f tx h s d))
