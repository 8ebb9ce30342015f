-- ===== src/Client/Operations/Service.antt =====
-- `client_operation` and `deposit_operation` of
-- `nightfall_client/src/services/client_operation.rs`. The prover, the check of a membership proof, the
-- contracts, the curve and the keys are arguments. Lists of commitments have four entries: two for the
-- token and two for the fee.
use Prim.Native.String.{String}
use nightfall_4_ce.Common.{
  false, ℕ, Bool, ◌&&◌, not, List, [], ◌∷◌, map, Option, none, some, ◌==◌, if◌then◌else◌, Result,
  ok, err, ◌>>=◌, ok_or, take, drop, get_or,
}
use nightfall_4_ce.Field.{Fr254, ◌+F◌}
use nightfall_4_ce.Trees.Mutable.Store.{get_root}
use nightfall_4_ce.Trees.Mutable.Defs.{MembershipProof, get_membership_proof}
use nightfall_4_ce.Client.Entities.Defs.{
  Point, Preimage, deposit_salt, DepositSecret, TokenType, ClientTransaction, default_preimage,
  hash_preimage, get_salt,
}
use nightfall_4_ce.Client.Selection.Defs.{get_value}
use nightfall_4_ce.Client.Commitments.Store.{get_commitment}
use nightfall_4_ce.Client.Events.Defs.{ClientState}
use nightfall_4_ce.Client.Operations.State.{HandlerError, custom_error, deposit_error, panicked}
use nightfall_4_ce.Client.Operations.Send.{Answer}

-- `PublicInputs` and `PrivateInputs`, as far as they are set before the proof.
pub record ProofInputs : Type 0 where
  pub fee : Fr254
  pub roots : List Fr254
  pub nf_address : ℕ
  pub value : Fr254
  pub nf_token_id : Fr254
  pub nf_slot_id : Fr254
  pub nullifier_key : Fr254
  pub nullifiers_values : List Fr254
  pub nullifiers_salts : List Fr254
  pub commitments_values : List Fr254
  pub commitments_salts : List Fr254
  pub public_keys : List Point
  pub recipient_public_key : Point
  pub zkp_private_key : ℕ
  pub ephemeral_key : ℕ
  pub membership_proofs : List MembershipProof
  pub withdraw_address : Fr254
  pub secret_preimages : List DepositSecret

-- What the handlers take from elsewhere: the hash, the texts of field elements, the points of the curve
-- library, the keys, the settings, the check of a proof, the prover, the contracts and the proposers.
pub record Setting : Type 0 where
  pub hash : List Fr254 → Option Fr254
  pub to_hex : Fr254 → String
  pub default_point : Point
  pub neutral : Point
  pub shared_secret : Point → ℕ → Point
  pub zkp_private_key : ℕ
  pub zkp_public_key : Point
  pub nullifier_key : Fr254
  pub nf_address : ℕ
  pub fee_token_id : Fr254
  pub default_proof : MembershipProof
  pub verify : MembershipProof → Fr254 → Bool
  pub prove : ProofInputs → Option ClientTransaction
  pub set_approval : TokenType → Fr254 → Fr254 → ℕ → Bool
  pub escrow_funds :
      Fr254 → Fr254 → ℕ → Fr254 → Fr254 → DepositSecret → TokenType → Option (Fr254 × Fr254)
  pub is_success : ℕ → Bool
  pub proposers : Option (List (Option (ℕ → Answer)))

-- `.sum()`, from zero.
unfoldable pub sum_from : Fr254 → List Preimage → Fr254
sum_from total [] = total
sum_from total (c ∷ cs) = sum_from (total +F get_value c) cs

unfoldable pub sum : List Preimage → Fr254
unfolding sum_from
sum = sum_from 0

-- The value of the tokens and that of the fees are conserved.
unfoldable pub is_conserved : List Preimage → List Preimage → Bool
unfolding sum
is_conserved spend new =
    sum (take 2 new) == sum (take 2 spend) && sum (drop 2 new) == sum (drop 2 spend)

module _ (env : Setting) where
  abbrev pub commitment_at : List Preimage → ℕ → Preimage
  commitment_at cs i = get_or cs i (default_preimage env.default_point)

  unfoldable pub salts_of : List Preimage → Option (List Fr254)
  salts_of [] = some []
  salts_of (c ∷ cs) = elim (get_salt env.hash c.salt) [
    | none ↦ none
    | some f ↦ elim (salts_of cs) [ none ↦ none | some fs ↦ some (f ∷ fs) ]
  ]

  -- The proof of a commitment and the root that it leads to; a commitment without a token is skipped.
  -- As the leaf is given, the level of the log makes no difference.
  unfoldable pub proof_of : Preimage → ClientState → Result HandlerError (MembershipProof × Fr254)
  proof_of c s =
      if c.nf_token_id == 0 then ok (env.default_proof, 0) else elim (hash_preimage env.hash c) [
        | none ↦ err custom_error
        | some h ↦ elim (get_commitment h s.entries) [
          | none ↦ err custom_error
          | some _ ↦ elim (get_membership_proof false (some h) none s.tree) [
            | err _ ↦ err custom_error
            | ok proof ↦ elim (get_root s.tree) [
              | err _ ↦ err custom_error
              | ok root ↦ if env.verify proof root then ok (proof, root) else err custom_error
            ]
          ]
        ]
      ]

  unfoldable pub proofs_of :
      List Preimage → ClientState → Result HandlerError (List MembershipProof × List Fr254)
  unfolding proof_of
  proofs_of [] s = ok ([], [])
  proofs_of (c ∷ cs) s =
      proof_of c s >>= λ first. proofs_of cs s >>= λ rest. ok (first.0 ∷ rest.0, first.1 ∷ rest.1)

  -- The inputs of the prover. Salts that cannot be hashed are a panic, `none`.
  unfoldable pub proof_inputs :
      List Preimage
      → List Preimage
      → ℕ
      → Fr254
      → List DepositSecret
      → List MembershipProof × List Fr254
      → Option ProofInputs
  unfolding salts_of
  proof_inputs spend new ephemeral_key withdraw_address secret_preimages found =
      elim (salts_of spend) [
        | none ↦ none
        | some nullifiers_salts ↦ elim (salts_of (drop 1 new)) [
          | none ↦ none
          | some commitments_salts ↦ some (record {
            fee = (commitment_at new 2).value;
            roots = found.1;
            nf_address = env.nf_address;
            value = (commitment_at new 0).value;
            nf_token_id = (commitment_at spend 0).nf_token_id;
            nf_slot_id = (commitment_at new 0).nf_slot_id;
            nullifier_key = env.nullifier_key;
            nullifiers_values = map get_value spend;
            nullifiers_salts = nullifiers_salts;
            commitments_values = (commitment_at new 1).value ∷ (commitment_at new 3).value ∷ [];
            commitments_salts = commitments_salts;
            public_keys = map (λ (c : Preimage). c.public_key) spend;
            recipient_public_key =
                if withdraw_address == 0 then (commitment_at new 0).public_key else env.neutral;
            zkp_private_key = env.zkp_private_key;
            ephemeral_key = ephemeral_key;
            membership_proofs = found.0;
            withdraw_address = withdraw_address;
            secret_preimages = secret_preimages;
          })
        ]
      ]

  unfoldable pub client_operation :
      List Preimage
      → List Preimage
      → ℕ
      → Fr254
      → List DepositSecret
      → ClientState
      → Result HandlerError ClientTransaction
  unfolding is_conserved proofs_of proof_inputs
  client_operation spend new ephemeral_key withdraw_address secret_preimages s =
      if not (is_conserved spend new)
      then err custom_error
      else (proofs_of spend s >>= λ found.
          ok_or (proof_inputs spend new ephemeral_key withdraw_address secret_preimages found)
            panicked
          >>= λ inputs. ok_or (env.prove inputs) custom_error)

  -- The preimages of a deposit: of the value, and of the fee if there is one.
  unfoldable pub deposit_operation :
      Fr254
      → Fr254
      → Fr254
      → Fr254
      → ℕ
      → DepositSecret
      → TokenType
      → Result HandlerError (Preimage × Option Preimage)
  deposit_operation erc_address value fee deposit_fee token_id secret token_type =
      if not (env.set_approval token_type erc_address value token_id)
      then err deposit_error
      else elim (env.escrow_funds erc_address value token_id fee deposit_fee secret token_type) [
        | none ↦ err deposit_error
        | some (nf_token_id, nf_slot_id) ↦
            let deposited : Preimage = record {
              value = value;
              nf_token_id = nf_token_id;
              nf_slot_id = nf_slot_id;
              public_key = env.neutral;
              salt = deposit_salt secret;
            } in
            if deposit_fee == 0
            then ok (deposited, none)
            else ok (
              deposited,
              some (record {
                value = deposit_fee;
                nf_token_id = env.fee_token_id;
                nf_slot_id = env.fee_token_id;
                public_key = env.neutral;
                salt = deposit_salt secret;
              }),
            )
      ]
