-- ===== src/Proposer/Assembly/Selected.antt =====
-- The choice of the highest fees in `prepare_block_data` of
-- `nightfall_proposer/src/services/assemble_block.rs`.
use mathlib.Core.List.{Perm}
use native.Mathlib.Decide.{dec_lt}
use nightfall_4_ce.Common.{
  ℕ, zero, suc, ◌+◌, ◌≤◌, ◌≡◌, refl, arith, List, [], ◌∷◌, ◌++◌, map, none, some, length, take,
  drop, take-append-drop, length-take, Bool-cases, inl, inr, ◌⊎◌,
}
use nightfall_4_ce.Common.Sort.{sort, insert_sorted, sort-perm}
use nightfall_4_ce.Field.{Fr254}
use nightfall_4_ce.Proposer.Assembly.Mempool.{DepositDatawithFee, ClientTransactionWithMetaData}
use nightfall_4_ce.Proposer.Assembly.Groups.{AllFour}
use nightfall_4_ce.Proposer.Assembly.Defs.{
  Candidate, candidate_before, select, used_deposits_info, selected_client_transactions,
  deposit_candidate, client_candidate,
}

abbrev pub AllBelow : Fr254 → List Candidate → Type 0
AllBelow n [] = Unit
AllBelow n (c ∷ cs) = (c.fee ≤ n) × AllBelow n cs

-- Every candidate of the first list pays at least as much as every candidate of the second.
abbrev pub Dominates : List Candidate → List Candidate → Type 0
Dominates [] rest = Unit
Dominates (c ∷ cs) rest = AllBelow c.fee rest × Dominates cs rest

abbrev IsDescending : List Candidate → Type 0
IsDescending [] = Unit
IsDescending (c ∷ cs) = AllBelow c.fee cs × IsDescending cs

AllBelow-le : (m n : Fr254) (cs : List Candidate) → m ≤ n → AllBelow m cs → AllBelow n cs
AllBelow-le m n [] h all = tt
AllBelow-le m n (c ∷ cs) h all = (omega arith, AllBelow-le m n cs h all.1)

AllBelow-insert_sorted :
    (n : Fr254) (a : Candidate) (cs : List Candidate)
    → a.fee ≤ n
    → AllBelow n cs
    → AllBelow n (insert_sorted candidate_before a cs)
unfolding insert_sorted candidate_before
AllBelow-insert_sorted n a [] h all = (h, tt)
AllBelow-insert_sorted n a (c ∷ cs) h all = ground (arith, AllBelow-insert_sorted n a cs h all.1)

insert_sorted-IsDescending :
    (a : Candidate) (cs : List Candidate)
    → IsDescending cs
    → IsDescending (insert_sorted candidate_before a cs)
unfolding insert_sorted candidate_before
insert_sorted-IsDescending a [] s = (tt, tt)
insert_sorted-IsDescending a (c ∷ cs) s = ground (
  arith,
  insert_sorted-IsDescending a cs s.1,
  AllBelow-insert_sorted c.fee a cs,
  AllBelow-le c.fee a.fee cs,
)

sort-IsDescending : (cs : List Candidate) → IsDescending (sort candidate_before cs)
unfolding sort
sort-IsDescending [] = tt
sort-IsDescending (a ∷ cs) =
    insert_sorted-IsDescending a (sort candidate_before cs) (sort-IsDescending cs)

AllBelow-drop : (n : Fr254) (k : ℕ) (cs : List Candidate) → AllBelow n cs → AllBelow n (drop k cs)
AllBelow-drop n zero cs all = all
AllBelow-drop n (suc k) [] all = tt
AllBelow-drop n (suc k) (c ∷ cs) all = AllBelow-drop n k cs all.1

take-Dominates-drop :
    (k : ℕ) (cs : List Candidate) → IsDescending cs → Dominates (take k cs) (drop k cs)
take-Dominates-drop zero cs s = tt
take-Dominates-drop (suc k) [] s = tt
take-Dominates-drop (suc k) (c ∷ cs) s =
    (AllBelow-drop c.fee k cs s.0, take-Dominates-drop k cs s.1)

drop_all : (k : ℕ) (xs : List Candidate) → length xs ≤ k → drop k xs ≡ []
drop_all zero [] h = refl
drop_all zero (x ∷ xs) h = absurd (omega arith)
drop_all (suc k) [] h = refl
drop_all (suc k) (x ∷ xs) h = drop_all k xs (omega arith)

-- The selected candidates are candidates, each taken once, and at most as many as the block's size;
-- if any is left out they are exactly as many, and it pays at most as much as every selected one.
pub select_lem :
    (block_size : ℕ) (cs : List Candidate)
    → (length (select block_size cs) ≤ block_size)
      × ((rest : List Candidate) × Perm (select block_size cs ++ rest) cs
          × Dominates (select block_size cs) rest
          × ((rest ≡ []) ⊎ (length (select block_size cs) ≡ block_size)))
unfolding select
select_lem k cs =
    let sorted = sort candidate_before cs in
    let measured = length-take k sorted in
    (
      omega (arith, measured),
      (
        drop k sorted,
        rw (take-append-drop k sorted) (sort-perm candidate_before cs),
        take-Dominates-drop k sorted (sort-IsDescending cs),
        elim (dec_lt k (length sorted)) [
          | yes more ↦ inr (omega (arith, measured))
          | no few ↦ inl (drop_all k sorted (omega arith))
        ],
      ),
    )

-- A candidate is a group of four deposits or a client transaction, not both.
abbrev pub IsOne : Candidate → Type 0
IsOne c =
    ((g : List DepositDatawithFee) × (c.deposit ≡ some g) × (length g ≡ 4) × (c.client_tx ≡ none))
    ⊎ ((t : ClientTransactionWithMetaData) × (c.deposit ≡ none) × (c.client_tx ≡ some t))

abbrev pub AllOne : List Candidate → Type 0
AllOne [] = Unit
AllOne (c ∷ cs) = IsOne c × AllOne cs

AllOne-insert_sorted :
    (a : Candidate) (cs : List Candidate)
    → IsOne a
    → AllOne cs
    → AllOne (insert_sorted candidate_before a cs)
unfolding insert_sorted
AllOne-insert_sorted a [] one all = (one, tt)
AllOne-insert_sorted a (c ∷ cs) one all = elim (Bool-cases (candidate_before a c)) [
  | inl first ↦ rw (first, insert_sorted) (one, all)
  | inr later ↦ rw (later, insert_sorted) (all.0, AllOne-insert_sorted a cs one all.1)
]

AllOne-sort : (cs : List Candidate) → AllOne cs → AllOne (sort candidate_before cs)
unfolding sort
AllOne-sort [] all = tt
AllOne-sort (c ∷ cs) all =
    AllOne-insert_sorted c (sort candidate_before cs) all.0 (AllOne-sort cs all.1)

AllOne-take : (k : ℕ) (cs : List Candidate) → AllOne cs → AllOne (take k cs)
AllOne-take zero cs all = tt
AllOne-take (suc k) [] all = tt
AllOne-take (suc k) (c ∷ cs) all = (all.0, AllOne-take k cs all.1)

pub AllOne-select : (k : ℕ) (cs : List Candidate) → AllOne cs → AllOne (select k cs)
unfolding select
AllOne-select k cs all = AllOne-take k (sort candidate_before cs) (AllOne-sort cs all)

pub AllOne-candidates :
    (gs : List (List DepositDatawithFee)) (ts : List ClientTransactionWithMetaData)
    → AllFour gs
    → AllOne (map deposit_candidate gs ++ map client_candidate ts)
unfolding deposit_candidate client_candidate
AllOne-candidates [] [] all = tt
AllOne-candidates [] (t ∷ ts) all = (inr (t, refl, refl), AllOne-candidates [] ts tt)
AllOne-candidates (g ∷ gs) ts all = (inl (g, refl, all.0, refl), AllOne-candidates gs ts all.1)

-- The parts of the selection: groups of four, and as many parts as candidates.
pub AllOne-parts :
    (cs : List Candidate)
    → AllOne cs
    → AllFour (used_deposits_info cs)
      × (length (used_deposits_info cs) + length (selected_client_transactions cs) ≡ length cs)
unfolding used_deposits_info selected_client_transactions
AllOne-parts [] all = (tt, omega arith)
AllOne-parts (c ∷ cs) (one, all) =
    let (fours, counted) = AllOne-parts cs all in
    elim one [
      | inl (g, is_group, four, no_tx) ↦
          rw (is_group, used_deposits_info, no_tx, selected_client_transactions)
            ((four, fours), omega (arith, counted))
      | inr (t, no_group, is_tx) ↦
          rw (no_group, used_deposits_info, is_tx, selected_client_transactions)
            (fours, omega (arith, counted))
    ]
