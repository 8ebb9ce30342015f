-- ===== src/Client/Operations/Conserved.antt =====
-- The new commitments of a transfer or of a withdrawal, `handle_transfer` and `handle_withdraw` of
-- `nightfall_client/src/drivers/rest/client_nf_3.rs`, pass the first check of `client_operation`.
use nightfall_4_ce.Common.{
  ℕ, ◌<◌, ◌≡◌, refl, sym, ap, ◌∙◌, arith, true, List, [], ◌∷◌, take, drop, inl, inr, Bool-cases,
  ◌==◌, ==→≡, ==_self, ◌&&◌,
}
use nightfall_4_ce.Field.{Fr254, modulus, ◌+F◌, ◌-F◌, +F-lt}
use nightfall_4_ce.Client.Entities.Defs.{Point, Preimage}
use nightfall_4_ce.Client.Selection.Defs.{get_value}
use nightfall_4_ce.Client.Operations.Service.{Setting, sum, sum_from, is_conserved}
use nightfall_4_ce.Client.Operations.Handlers.{Randomness}
use nightfall_4_ce.Client.Operations.Requests.{
  contract_key, commitment_unless_zero, new_commitments,
}

-- A value and its change give the sum again.
change_back :
    (total value : Fr254)
    → total < modulus
    → value < modulus
    → (0 +F value) +F (total -F value) ≡ total
unfolding ◌+F◌ ◌-F◌
change_back total value ht hv = omega arith

both_same : (a b c d : ℕ) → a ≡ b → c ≡ d → (a == b && c == d) ≡ true
both_same a b c d h k = rw (h, k, ==_self b, ==_self d) refl

sum_from-lt : (total : Fr254) (cs : List Preimage) → total < modulus → sum_from total cs < modulus
unfolding sum_from
sum_from-lt total [] h = h
sum_from-lt total (c ∷ cs) h = sum_from-lt (total +F get_value c) cs (+F-lt total (get_value c))

module _ (env : Setting) where
  get_value-commitment_unless_zero :
      (value token slot : Fr254) (key : Point) (salt : Fr254)
      → get_value (commitment_unless_zero env value token slot key salt) ≡ value
  unfolding commitment_unless_zero
  get_value-commitment_unless_zero value token slot key salt = elim (Bool-cases (value == 0)) [
    | inl zero_value ↦ rw zero_value (sym (==→≡ value 0 zero_value))
    | inr some_value ↦ rw some_value refl
  ]

  -- For any commitments to spend, and a value and a fee that are field elements, the new
  -- commitments of a transfer or a withdrawal pass the check of `client_operation`: those of the
  -- token have the same sum as the first two spent, and those of the fee as the others.
  pub new_commitments-conserved :
      (spend : List Preimage) (token value fee : Fr254) (key : Point) (salt : Fr254)
      (r : Randomness)
      → value < modulus
      → fee < modulus
      → is_conserved spend (new_commitments env spend token value fee key salt r) ≡ true
  unfolding is_conserved sum sum_from new_commitments
  new_commitments-conserved spend token value fee key salt r hv hf =
      let tokens = sum_from 0 (take 2 spend) in
      let fees = sum_from 0 (drop 2 spend) in
      both_same _ _ _ _
        (ap (λ (t : ℕ). (0 +F value) +F t)
            (get_value-commitment_unless_zero (tokens -F value) token _ env.zkp_public_key
              r.salt_two)
          ∙ change_back tokens value (sum_from-lt 0 (take 2 spend) (omega arith)) hv)
        (ap
            (λ (t : ℕ).
              (0 +F t)
              +F get_value (
                  commitment_unless_zero env (fees -F fee) env.fee_token_id env.fee_token_id
                    env.zkp_public_key r.salt_four))
            (get_value-commitment_unless_zero fee env.fee_token_id env.fee_token_id
              (contract_key env) r.salt_three)
          ∙ ap (λ (t : ℕ). (0 +F fee) +F t)
              (get_value-commitment_unless_zero (fees -F fee) env.fee_token_id env.fee_token_id
                env.zkp_public_key r.salt_four)
          ∙ change_back fees fee (sum_from-lt 0 (drop 2 spend) (omega arith)) hf)
