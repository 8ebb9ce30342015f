-- ===== src/Proposer/Assembly/Groups.antt =====
-- The grouping of the deposits in fours of `nightfall_proposer/src/services/assemble_block.rs`.
use nightfall_4_ce.Common.{
  ℕ, ◌+◌, ◌-◌, ◌<◌, ◌≡◌, refl, sym, ap, ◌∙◌, arith, List, [], ◌∷◌, ◌++◌, ◌==◌, length, replicate,
  length-append, length-replicate, Bool-cases, inl, inr, ==→≡,
}
use mathlib.Core.List.{append-nil, append_assoc}
use nightfall_4_ce.Proposer.Assembly.Mempool.{DepositDatawithFee, default_deposit, flatten}
use nightfall_4_ce.Proposer.Assembly.Defs.{group_step, group_loop, pad_group, group_deposits}

-- Every group has four deposits.
abbrev pub AllFour : List (List DepositDatawithFee) → Type 0
AllFour [] = Unit
AllFour (g ∷ gs) = (length g ≡ 4) × AllFour gs

AllFour-append :
    (gs : List (List DepositDatawithFee)) (g : List DepositDatawithFee)
    → AllFour gs
    → length g ≡ 4
    → AllFour (gs ++ g ∷ [])
AllFour-append [] g all four = (four, tt)
AllFour-append (h ∷ gs) g all four = (all.0, AllFour-append gs g all.1 four)

flatten-append :
    (gs : List (List DepositDatawithFee)) (g : List DepositDatawithFee)
    → flatten (gs ++ g ∷ []) ≡ flatten gs ++ g
flatten-append [] g = append-nil g
flatten-append (h ∷ gs) g =
    ap (λ (t : List DepositDatawithFee). h ++ t) (flatten-append gs g)
    ∙ sym (append_assoc h (flatten gs) g)

-- The loop's closed groups and its open one hold the deposits so far, in order.
abbrev IsGrouping :
    List DepositDatawithFee → List (List DepositDatawithFee) → List DepositDatawithFee → Type 0
IsGrouping done groups current =
    AllFour groups × (length current < 4) × (flatten groups ++ current ≡ done)

group_step-IsGrouping :
    (d : DepositDatawithFee) (done : List DepositDatawithFee)
    (groups : List (List DepositDatawithFee)) (current : List DepositDatawithFee)
    → IsGrouping done groups current
    → IsGrouping
        (done ++ d ∷ [])
        (group_step d (groups, current)).0
        (group_step d (groups, current)).1
unfolding group_step
group_step-IsGrouping d done groups current (all, few, same) =
    let one_more : length (current ++ d ∷ []) ≡ length current + 1 =
      length-append current (d ∷ []) in
    let held : (flatten groups ++ (current ++ d ∷ [])) ≡ done ++ d ∷ [] =
      sym (append_assoc (flatten groups) current (d ∷ []))
      ∙ ap (λ (t : List DepositDatawithFee). t ++ d ∷ []) same in
    elim (Bool-cases (length (current ++ d ∷ []) == 4)) [
      | inl full ↦
          rw (full, group_step)
            (
              AllFour-append groups (current ++ d ∷ []) all
                  (==→≡ (length (current ++ d ∷ [])) 4 full),
              omega arith,
              append-nil (flatten (groups ++ (current ++ d ∷ []) ∷ []))
                  ∙ flatten-append groups (current ++ d ∷ [])
                  ∙ held,
            )
      | inr open_ ↦ rw (open_, group_step) (all, ground (arith, one_more), held)
    ]

group_loop-IsGrouping :
    (ds done : List DepositDatawithFee) (groups : List (List DepositDatawithFee))
    (current : List DepositDatawithFee)
    → IsGrouping done groups current
    → IsGrouping
        (done ++ ds)
        (group_loop ds (groups, current)).0
        (group_loop ds (groups, current)).1
unfolding group_loop
group_loop-IsGrouping [] done groups current (all, few, same) =
    (all, few, same ∙ sym (append-nil done))
group_loop-IsGrouping (d ∷ ds) done groups current g =
    let (all, few, same) =
      group_loop-IsGrouping ds (done ++ d ∷ []) (group_step d (groups, current)).0
        (group_step d (groups, current)).1 (group_step-IsGrouping d done groups current g) in
    (all, few, same ∙ append_assoc done (d ∷ []) ds)

pad_group_lem :
    (done : List DepositDatawithFee) (groups : List (List DepositDatawithFee))
    (current : List DepositDatawithFee)
    → IsGrouping done groups current
    → AllFour (pad_group (groups, current))
      × ((pad : ℕ) × (pad < 4)
          × (flatten (pad_group (groups, current)) ≡ done ++ replicate pad default_deposit))
unfolding pad_group
pad_group_lem done groups [] (all, few, same) =
    (all, (0, omega arith, sym (append-nil (flatten groups)) ∙ same ∙ sym (append-nil done)))
pad_group_lem done groups (d ∷ ds) (all, few, same) =
    let pad = 4 - length (d ∷ ds) in
    let four : length ((d ∷ ds) ++ replicate pad default_deposit) ≡ 4 = omega (
      arith,
      length-append (d ∷ ds) (replicate pad default_deposit),
      length-replicate pad default_deposit,
    ) in
    (
      AllFour-append groups ((d ∷ ds) ++ replicate pad default_deposit) all four,
      (
        pad,
        omega arith,
        flatten-append groups ((d ∷ ds) ++ replicate pad default_deposit)
            ∙ sym (append_assoc (flatten groups) (d ∷ ds) (replicate pad default_deposit))
            ∙ ap (λ (t : List DepositDatawithFee). t ++ replicate pad default_deposit) same,
      ),
    )

-- The groups have four deposits each; in a row they are the deposits in their order, followed by fewer
-- than four default deposits.
pub group_deposits_lem :
    (ds : List DepositDatawithFee)
    → AllFour (group_deposits ds)
      × ((pad : ℕ) × (pad < 4)
          × (flatten (group_deposits ds) ≡ ds ++ replicate pad default_deposit))
unfolding group_deposits
group_deposits_lem ds =
    pad_group_lem ds (group_loop ds ([], [])).0 (group_loop ds ([], [])).1
      (group_loop-IsGrouping ds [] [] [] (tt, omega arith, refl))
