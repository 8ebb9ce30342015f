-- ===== src/Client/Operations/Keeps.antt =====
-- What every handler of a request keeps: a relation between the states before and after that the single
-- writes respect is respected by the handlers of `nightfall_client/src/drivers/rest/client_nf_3.rs`,
-- however they end.
use Prim.Native.String.{String}
use nightfall_4_ce.Common.{
  Bool, true, false, List, [], ◌∷◌, Option, none, some, ok, err, ◌≡◌, inl, inr, Bool-cases,
  Option-cases, ◌==◌, ℕ, if◌then◌else◌, Result, Result-cases,
}
use nightfall_4_ce.Field.{Fr254}
use nightfall_4_ce.Client.Entities.Defs.{
  Preimage, Point, DepositSecret, RequestStatus, queued, submitted, failed, proposer_unreachable,
}
use nightfall_4_ce.Client.Commitments.Store.{
  CommitmentEntry, store_commitment, store_commitments, find_usable_commitments,
}
use nightfall_4_ce.Client.Records.Defs.{store_request, update_request, add_mapping}
use nightfall_4_ce.Client.Events.Defs.{ClientState}
use nightfall_4_ce.Client.Operations.State.{
  Op, and_then, ◌>>=◌, ◌>>◌, or_throw, modify, return_ok, throw, HandlerError,
}
use nightfall_4_ce.Client.Operations.Send.{
  process_transaction_offchain, send_to_all, any_success, any_retriable,
}
use nightfall_4_ce.Client.Operations.Service.{Setting}
use nightfall_4_ce.Client.Operations.Handlers.{
  map_commitments, is_change, store_change, send, handle_client_operation, select_commitments,
  select_fee_commitments, select_spend, Randomness, DepositRequest, TransferRequest,
  WithdrawRequest,
}
use nightfall_4_ce.Client.Operations.Requests.{
  first_value, first_key, new_commitments, hash_all, finish_transfer, finish_withdraw,
  handle_transfer, handle_withdraw, map_to_request, store_entry, store_fee, handle_deposit,
  handle_request, TransactionRequest, deposit_request, transfer_request, withdraw_request,
}

-- A relation that is reflexive and transitive, and that the writes of a request `id` respect.
pub record IsKept (env : Setting) (id : String) (R : ClientState → ClientState → Type 0)
    : Type 0 where
  pub same : (s : ClientState) → R s s
  pub chain : (s t u : ClientState) → R s t → R t u → R s u
  pub stores_request :
      (s : ClientState) → R s (record s { requests = store_request id queued s.requests })
  pub updates_request :
      (status : RequestStatus) (s : ClientState)
      → R s (record s { requests = update_request id status s.requests })
  pub maps :
      (text : String) (s : ClientState)
      → R s (record s { mappings = add_mapping id text s.mappings })
  pub stores :
      (entry : CommitmentEntry) (entries : List CommitmentEntry) (s : ClientState)
      → store_commitment entry s.entries ≡ some entries
      → R s (record s { entries = entries })
  pub stores_all :
      (cs : List CommitmentEntry) (s : ClientState)
      → R s (record s { entries = (store_commitments cs true s.entries).1 })
  pub selects :
      (token target : Fr254) (s : ClientState)
      → R s (record s {
        entries = (find_usable_commitments env.hash env.default_point token target s.entries).1;
      })

module _ (env : Setting) (id : String) (R : ClientState → ClientState → Type 0)
    (kept : IsKept env id R) where
  abbrev pub Keeps : {A : Type 0} → Op A → Type 0
  Keeps op = (s : ClientState) → R s (op s).1

  Keeps-and_then :
      {A B : Type 0} (next : A → Op B) (s : ClientState) (o : Result HandlerError A × ClientState)
      → R s o.1
      → ((a : A) → Keeps (next a))
      → R s (and_then o next).1
  unfolding and_then
  Keeps-and_then next s (err e, t) first k = first
  Keeps-and_then next s (ok a, t) first k = kept.chain s t _ first (k a t)

  Keeps-bind :
      {A B : Type 0} (op : Op A) (next : A → Op B)
      → Keeps op
      → ((a : A) → Keeps (next a))
      → Keeps (op >>= next)
  unfolding ◌>>=◌
  Keeps-bind op next h k s = Keeps-and_then next s (op s) (h s) k

  Keeps-then :
      {B : Type 0} (op : Op (Unit {0})) (next : Op B) → Keeps op → Keeps next → Keeps (op >> next)
  unfolding ◌>>◌
  Keeps-then op next h k s = Keeps-and_then (λ _. next) s (op s) (h s) (λ _. k)

  Keeps-modify :
      (f : ClientState → ClientState) → ((s : ClientState) → R s (f s)) → Keeps (modify f)
  unfolding modify
  Keeps-modify f h = h

  Keeps-return_ok : {A : Type 0} (a : A) → Keeps (return_ok a)
  unfolding return_ok
  Keeps-return_ok a = kept.same

  Keeps-throw : (A : Type 0) (e : HandlerError) → Keeps (throw {A = A} e)
  unfolding throw
  Keeps-throw A e = kept.same

  Keeps-if : {A : Type 0} (b : Bool) (x y : Op A) → Keeps x → Keeps y → Keeps (if b then x else y)
  Keeps-if true x y hx hy = hx
  Keeps-if false x y hx hy = hy

  Keeps-or_throw : {A : Type 0} (o : Option A) (e : HandlerError) → Keeps (or_throw o e)
  unfolding or_throw
  Keeps-or_throw none e s = kept.same s
  Keeps-or_throw (some a) e s = kept.same s

  map_commitments-Keeps :
      (first : Bool) (cs : List Preimage) → Keeps (map_commitments env id first cs)
  unfolding map_commitments
  map_commitments-Keeps first [] = Keeps-return_ok _
  map_commitments-Keeps first (c ∷ cs) = Keeps-bind _ _ (Keeps-or_throw _ _) (λ h.
      Keeps-then _ _ (Keeps-modify _ (kept.maps (env.to_hex h))) (
        Keeps-if (is_change env first c) _ _
          (Keeps-bind _ _ (Keeps-or_throw _ _) (λ entry.
            Keeps-bind _ _ (map_commitments-Keeps false cs) (λ entries. Keeps-return_ok _)))
          (map_commitments-Keeps false cs)))

  store_change-Keeps : (entries : List CommitmentEntry) → Keeps (store_change env entries)
  unfolding store_change
  store_change-Keeps entries s = elim (Option-cases (store_commitments entries true s.entries).0) [
    | inl refused ↦ rw (store_change, refused) (kept.stores_all entries s)
    | inr (_, stored) ↦ rw (store_change, stored) (kept.stores_all entries s)
  ]

  sent-Keeps :
      (s : ClientState)
      → R s (record s {
        requests = (process_transaction_offchain env.is_success env.proposers id s.requests).1;
      })
  unfolding process_transaction_offchain
  sent-Keeps s = elim (Option-cases env.proposers) [
    | inl unread ↦ rw unread (kept.same s)
    | inr (proposers, read) ↦
        elim (Bool-cases (any_success env.is_success (send_to_all env.is_success proposers))) [
          | inl sent ↦ rw (read, sent) (kept.updates_request submitted s)
          | inr unsent ↦
              elim (Bool-cases
                (any_retriable env.is_success (send_to_all env.is_success proposers))) [
                  | inl later ↦
                      rw (read, unsent, later) (kept.updates_request proposer_unreachable s)
                  | inr never ↦ rw (read, unsent, never) (kept.updates_request failed s)
                ]
        ]
  ]

  send-Keeps : Keeps (send env id)
  unfolding send
  send-Keeps s =
      elim (Bool-cases
        (process_transaction_offchain env.is_success env.proposers id s.requests).0) [
          | inl sent ↦ rw sent (sent-Keeps s)
          | inr unsent ↦ rw unsent (sent-Keeps s)
        ]

  handle_client_operation-Keeps :
      (spend new : List Preimage) (key : ℕ) (recipient : Fr254) (secrets : List DepositSecret)
      → Keeps (handle_client_operation env spend new key recipient secrets id)
  unfolding handle_client_operation
  handle_client_operation-Keeps spend new key recipient secrets =
      Keeps-bind _ _ (map_commitments-Keeps true new) (λ entries.
        Keeps-then _ _ (store_change-Keeps entries)
          (Keeps-bind _ _ kept.same (λ result. Keeps-then _ _ send-Keeps (Keeps-return_ok _))))

  select_commitments-Keeps : (token target : Fr254) → Keeps (select_commitments env token target)
  unfolding select_commitments
  select_commitments-Keeps token target s =
      elim (Result-cases
        (find_usable_commitments env.hash env.default_point token target s.entries).0) [
          | inl (_, none_found) ↦ rw (select_commitments, none_found) (kept.selects token target s)
          | inr (_, found) ↦ rw (select_commitments, found) (kept.selects token target s)
        ]

  select_fee-Keeps :
      (fee : Fr254) (for_value : Preimage × Preimage)
      → Keeps (
          select_fee_commitments env fee >>= λ for_fee.
          return_ok (for_value.0 ∷ for_value.1 ∷ for_fee.0 ∷ for_fee.1 ∷ []))
  unfolding select_fee_commitments
  select_fee-Keeps fee for_value =
      Keeps-bind _ _
        (Keeps-if (fee == 0) _ _ (Keeps-return_ok _)
          (select_commitments-Keeps env.fee_token_id fee))
        (λ for_fee. Keeps-return_ok _)

  select_spend-Keeps : (token value fee : Fr254) → Keeps (select_spend env token value fee)
  unfolding select_spend
  select_spend-Keeps token value fee =
      Keeps-bind _ _ (select_commitments-Keeps token value) (select_fee-Keeps fee)

  -- A choice of commitments that went well, and what runs after it.
  pub select_spend-after :
      {A : Type 0} (token value fee : Fr254) (pair : Preimage × Preimage) (s t : ClientState)
      (next : List Preimage → Op A)
      → select_commitments env token value s ≡ (ok pair, t)
      → ((spend : List Preimage) → Keeps (next spend))
      → R t ((select_spend env token value fee >>= next) s).1
  unfolding select_spend ◌>>=◌ and_then
  select_spend-after token value fee pair s t next e k =
      rw (select_spend, ◌>>=◌, e) (Keeps-and_then next t _ (select_fee-Keeps fee pair t) k)

  first_value-Keeps : (vs : List (Option Fr254)) → Keeps (first_value vs)
  unfolding first_value
  first_value-Keeps [] = Keeps-throw _ _
  first_value-Keeps (v ∷ vs) = Keeps-or_throw v _

  first_key-Keeps : (ks : List (Option Point)) → Keeps (first_key ks)
  unfolding first_key
  first_key-Keeps [] = Keeps-throw _ _
  first_key-Keeps (k ∷ ks) = Keeps-or_throw k _

  hash_all-Keeps : (cs : List Preimage) → Keeps (hash_all env cs)
  unfolding hash_all
  hash_all-Keeps [] = Keeps-return_ok _
  hash_all-Keeps (c ∷ cs) =
      Keeps-bind _ _ (Keeps-or_throw _ _)
        (λ h. Keeps-bind _ _ (hash_all-Keeps cs) (λ hs. Keeps-return_ok _))

  pub finish_transfer-Keeps :
      (token value fee : Fr254) (recipient : Point) (r : Randomness) (spend : List Preimage)
      → Keeps (finish_transfer env token value fee recipient r id spend)
  unfolding finish_transfer
  finish_transfer-Keeps token value fee recipient r spend =
      Keeps-bind _ _
        (hash_all-Keeps (
          new_commitments env spend token value fee recipient
            (env.shared_secret recipient r.ephemeral_key).y r))
        (λ shown.
          Keeps-bind _ _ (handle_client_operation-Keeps _ _ _ _ _) (λ result. Keeps-return_ok _))

  handle_transfer-Keeps :
      (req : TransferRequest) (r : Randomness) → Keeps (handle_transfer env req r id)
  unfolding handle_transfer
  handle_transfer-Keeps req r = Keeps-then _ _ (Keeps-modify _ kept.stores_request) (
      Keeps-bind _ _ (Keeps-or_throw _ _) (λ token.
        Keeps-bind _ _ (first_value-Keeps req.values) (λ value.
          Keeps-bind _ _ (Keeps-or_throw _ _) (λ fee.
            Keeps-bind _ _ (first_key-Keeps req.recipient_keys) (λ recipient.
              Keeps-bind _ _ (select_spend-Keeps token value fee)
                (finish_transfer-Keeps token value fee recipient r))))))

  pub finish_withdraw-Keeps :
      (token value fee recipient : Fr254) (r : Randomness) (spend : List Preimage)
      → Keeps (finish_withdraw env token value fee recipient r id spend)
  unfolding finish_withdraw
  finish_withdraw-Keeps token value fee recipient r spend =
      Keeps-bind _ _ (Keeps-or_throw _ _) (λ spent. Keeps-bind _ _ (Keeps-or_throw _ _) (λ salt.
        Keeps-bind _ _ (handle_client_operation-Keeps _ _ _ _ _) (λ result. Keeps-return_ok _)))

  handle_withdraw-Keeps :
      (req : WithdrawRequest) (r : Randomness) → Keeps (handle_withdraw env req r id)
  unfolding handle_withdraw
  handle_withdraw-Keeps req r = Keeps-then _ _ (Keeps-modify _ kept.stores_request) (
      Keeps-bind _ _ (Keeps-or_throw _ _) (λ token. Keeps-bind _ _ (Keeps-or_throw _ _) (λ value.
        Keeps-bind _ _ (Keeps-or_throw _ _) (λ fee.
          Keeps-bind _ _ (Keeps-or_throw _ _) (λ recipient.
            Keeps-bind _ _ (select_spend-Keeps token value fee)
              (finish_withdraw-Keeps token value fee recipient r))))))

  store_entry-Keeps : (entry : CommitmentEntry) → Keeps (store_entry env entry)
  unfolding store_entry
  store_entry-Keeps entry s = elim (Option-cases (store_commitment entry s.entries)) [
    | inl refused ↦ rw (store_entry, refused) (kept.same s)
    | inr (entries, stored) ↦ rw (store_entry, stored) (kept.stores entry entries s stored)
  ]

  store_fee-Keeps : (p : Option Preimage) → Keeps (store_fee env id p)
  unfolding store_fee map_to_request
  store_fee-Keeps none = Keeps-return_ok _
  store_fee-Keeps (some p) = Keeps-bind _ _ (Keeps-or_throw _ _) (λ entry.
      Keeps-then _ _ (Keeps-modify _ (kept.maps (env.to_hex entry.key)))
        (Keeps-then _ _ (store_entry-Keeps entry) (Keeps-return_ok _)))

  handle_deposit-Keeps :
      (req : DepositRequest) (r : Randomness) → Keeps (handle_deposit env req r id)
  unfolding handle_deposit map_to_request
  handle_deposit-Keeps req r = Keeps-bind _ _ (Keeps-or_throw _ _) (λ erc_address.
      Keeps-bind _ _ (Keeps-or_throw _ _) (λ token_id.
        Keeps-bind _ _ (Keeps-or_throw _ _) (λ token_type.
          Keeps-bind _ _ (Keeps-or_throw _ _) (λ fee.
            Keeps-bind _ _ (Keeps-or_throw _ _) (λ deposit_fee.
              Keeps-bind _ _ (Keeps-or_throw _ _) (λ value. Keeps-bind _ _ kept.same (λ deposited.
                Keeps-bind _ _ (Keeps-or_throw _ _) (λ entry.
                  Keeps-then _ _ (store_entry-Keeps entry) (
                    Keeps-then _ _ (Keeps-modify _ (kept.maps (env.to_hex entry.key))) (
                      Keeps-bind _ _ (store_fee-Keeps deposited.1)
                        (λ hashes. Keeps-return_ok _)))))))))))

  -- However it ends, a request's handler respects what its single writes respect.
  pub handle_request-Keeps :
      (req : TransactionRequest) (r : Randomness) → Keeps (handle_request env req r id)
  unfolding handle_request
  handle_request-Keeps (deposit_request req) r = handle_deposit-Keeps req r
  handle_request-Keeps (transfer_request req) r = handle_transfer-Keeps req r
  handle_request-Keeps (withdraw_request req) r = handle_withdraw-Keeps req r
