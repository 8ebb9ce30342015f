-- ===== src/Client/Records/Withdrawals.antt =====
-- The pending withdrawals, `WithdrawalDB` of `nightfall_client/src/driven/db/mongo.rs`, whose calls
-- succeed.
use nightfall_4_ce.Common.{
  ◌≡◌, ◌≢◌, refl, List, [], ◌∷◌, ◌++◌, Option, none, some, ◌==◌, if◌then◌else◌, Bool-cases, inl,
  inr, ==_self, ==→≡,
}
use nightfall_4_ce.Field.{Fr254}
use nightfall_4_ce.Client.Entities.Defs.{WithdrawData}

pub record PendingWithdrawal : Type 0 where
  pub key : Fr254
  pub data_of : WithdrawData

module _ (hash : List Fr254 → Option Fr254) where
  -- `PendingWithdrawal::new`; a hash error is a panic, `none`.
  unfoldable pub pending_withdrawal_of : WithdrawData → Option PendingWithdrawal
  pending_withdrawal_of d =
      elim (hash (d.nf_token_id ∷ d.withdraw_address ∷ d.value ∷ d.withdraw_fund_salt ∷ [])) [
        | none ↦ none
        | some k ↦ some (record { key = k; data_of = d })
      ]

-- The collection has an id of its own, so that a key may be stored twice.
unfoldable pub store_withdrawal :
    PendingWithdrawal → List PendingWithdrawal → List PendingWithdrawal
store_withdrawal w ws = ws ++ w ∷ []

-- `delete_one`: an answer, and a failure if nothing was deleted.
unfoldable pub remove_withdrawal :
    Fr254 → List PendingWithdrawal → Option (Unit {0}) × List PendingWithdrawal
remove_withdrawal k [] = (none, [])
remove_withdrawal k (w ∷ ws) =
    let (answer, rest) = remove_withdrawal k ws in
    if w.key == k then (some tt, ws) else (answer, w ∷ rest)

-- No withdrawal with the key.
abbrev pub IsFree : Fr254 → List PendingWithdrawal → Type 0
IsFree k [] = Unit
IsFree k (w ∷ ws) = (w.key ≢ k) × IsFree k ws

-- A withdrawal whose key is new is removed again, with success, and the others stay as they were; before
-- it is stored, its removal fails and changes nothing.
remove_withdrawal-store_withdrawal :
    (w : PendingWithdrawal) (ws : List PendingWithdrawal)
    → IsFree w.key ws
    → (remove_withdrawal w.key (store_withdrawal w ws) ≡ (some tt, ws))
      × (remove_withdrawal w.key ws ≡ (none, ws))
unfolding remove_withdrawal store_withdrawal
remove_withdrawal-store_withdrawal w [] free = (rw (==_self w.key) refl, refl)
remove_withdrawal-store_withdrawal w (v ∷ ws) free =
    let (removed, failed) = remove_withdrawal-store_withdrawal w ws free.1 in
    elim (Bool-cases (v.key == w.key)) [
      | inl same ↦ absurd (free.0 (==→≡ v.key w.key same))
      | inr other ↦ (rw (other, removed) refl, rw (other, failed) refl)
    ]
