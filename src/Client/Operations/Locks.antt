-- ===== src/Client/Operations/Locks.antt =====
-- The commitments that are chosen for a transfer or a withdrawal are pending after it, however it ends:
-- `nightfall_client/src/drivers/rest/client_nf_3.rs`.
use Prim.Native.String.{String}
use nightfall_4_ce.Common.{
  true, List, [], ◌∷◌, Option, some, ◌≡◌, ◌⊎◌, refl, ◌∙◌, inl, inr, Bool-cases, Result, ok, ◌==◌,
  ==_self,
}
use nightfall_4_ce.Field.{Fr254}
use nightfall_4_ce.Client.Entities.Defs.{Preimage, Point, pending_spend, queued, hash_preimage}
use nightfall_4_ce.Client.Commitments.Store.{
  CommitmentEntry, is_in, get_commitment, find_usable_commitments,
}
use nightfall_4_ce.Client.Selection.Defs.{SelectionError}
use nightfall_4_ce.Client.Records.Defs.{store_request}
use nightfall_4_ce.Client.Events.Defs.{ClientState}
use nightfall_4_ce.Client.Operations.State.{modify, or_throw, ◌>>◌, ◌>>=◌, and_then}
use nightfall_4_ce.Client.Operations.Service.{Setting}
use nightfall_4_ce.Client.Operations.Handlers.{Randomness, select_commitments}
use nightfall_4_ce.Client.Operations.Requests.{
  first_value, first_key, handle_transfer, handle_withdraw,
}
use nightfall_4_ce.Client.Operations.Keeps.{
  finish_transfer-Keeps, finish_withdraw-Keeps, select_spend-after,
}
use nightfall_4_ce.Client.Operations.Locked.{
  IsPending, marked, get_commitment-mark, get_commitment-key, Chosen, not_chosen, chosen,
  find_usable_commitments-Chosen, StaysPending, StaysPending-IsKept,
}

marked-pending :
    (keys : List Fr254) (c : CommitmentEntry)
    → is_in c.key keys ≡ true
    → (marked keys c).status ≡ pending_spend
unfolding marked
marked-pending keys c hit = rw hit refl

is_in_pair :
    (x key_a key_b : Fr254) → (x ≡ key_a) ⊎ (x ≡ key_b) → is_in x (key_a ∷ key_b ∷ []) ≡ true
unfolding is_in
is_in_pair x key_a key_b (inl e) = rw (e, ==_self key_a) refl
is_in_pair x key_a key_b (inr e) = elim (Bool-cases (x == key_a)) [
  | inl first ↦ rw first refl
  | inr second ↦ rw (second, e, ==_self key_b) refl
]

first_of :
    (a' b' a b : Preimage) (o : Result SelectionError (Preimage × Preimage))
    → o ≡ ok (a', b')
    → o ≡ ok (a, b)
    → a' ≡ a
first_of a' b' a b o h h' = cc

second_of :
    (a' b' a b : Preimage) (o : Result SelectionError (Preimage × Preimage))
    → o ≡ ok (a', b')
    → o ≡ ok (a, b)
    → b' ≡ b
second_of a' b' a b o h h' = cc

key_of :
    (hash : Preimage → Option Fr254) (a a' : Preimage) (k key : Fr254)
    → a' ≡ a
    → hash a' ≡ some key
    → hash a ≡ some k
    → k ≡ key
key_of hash a a' k key same h h' = cc

-- The commitments that were chosen are pending.
find_usable_commitments-IsPending :
    (env : Setting) (token target : Fr254) (db : List CommitmentEntry) (k : Fr254)
    (c : CommitmentEntry) (a b : Preimage)
    (o : Result SelectionError (Preimage × Preimage) × List CommitmentEntry)
    → Chosen env db o
    → o.0 ≡ ok (a, b)
    → get_commitment k db ≡ some c
    → (hash_preimage env.hash a ≡ some k) ⊎ (hash_preimage env.hash b ≡ some k)
    → IsPending k o.1
find_usable_commitments-IsPending env token target db k c a b _ (not_chosen e) h found one = cc
find_usable_commitments-IsPending env token target db k c a b _ (chosen a' b' key_a key_b ha hb) h
      found one =
    let at : c.key ≡ k = get_commitment-key k db c found in
    let hit : is_in c.key (key_a ∷ key_b ∷ []) ≡ true = is_in_pair c.key key_a key_b (elim one [
      | inl first ↦
          inl (
            at
            ∙ key_of (hash_preimage env.hash) a a' k key_a (first_of a' b' a b _ refl h) ha first)
      | inr second ↦ inr (
          at
          ∙ key_of (hash_preimage env.hash) b b' k key_b (second_of a' b' a b _ refl h) hb second)
    ]) in
    (
      marked (key_a ∷ key_b ∷ []) c,
      get_commitment-mark k (key_a ∷ key_b ∷ []) db c found,
      marked-pending (key_a ∷ key_b ∷ []) c hit,
    )

select_commitments-ok :
    (env : Setting) (token target : Fr254) (s : ClientState) (pair : Preimage × Preimage)
    → (find_usable_commitments env.hash env.default_point token target s.entries).0 ≡ ok pair
    → select_commitments env token target s ≡ (
      ok pair,
      record s {
        entries = (find_usable_commitments env.hash env.default_point token target s.entries).1;
      },
    )
unfolding select_commitments
select_commitments-ok env token target s pair e = rw (select_commitments, e) refl

-- Where the token, the first value, the fee and the receiver of a request can be read, commitments
-- are found for the value, and the stored commitment `k` is one of the two: `k` is pending after a
-- transfer and after a withdrawal, with success or with any error or panic of the steps that
-- follow.
pub handle_transfer_locks :
    (env : Setting) (token value fee recipient_address k : Fr254) (key : Point)
    (vs : List (Option Fr254)) (ks : List (Option Point)) (r : Randomness) (id : String)
    (s : ClientState) (c : CommitmentEntry) (a b : Preimage)
    → (find_usable_commitments env.hash env.default_point token value s.entries).0 ≡ ok (a, b)
    → get_commitment k s.entries ≡ some c
    → (hash_preimage env.hash a ≡ some k) ⊎ (hash_preimage env.hash b ≡ some k)
    → IsPending k
        (handle_transfer env
          (record {
            nf_token_id = some token;
            values = some value ∷ vs;
            fee = some fee;
            recipient_keys = some key ∷ ks;
          })
          r
          id
          s).1.entries
      × IsPending k
          (handle_withdraw env
            (record {
              nf_token_id = some token;
              value = some value;
              fee = some fee;
              recipient_address = some recipient_address;
            })
            r
            id
            s).1.entries
unfolding handle_transfer handle_withdraw first_value first_key modify or_throw ◌>>◌ ◌>>=◌ and_then
handle_transfer_locks env token value fee recipient_address k key vs ks r id s c a b e found one =
    let started : ClientState = record s { requests = store_request id queued s.requests } in
    let pending =
      find_usable_commitments-IsPending env token value s.entries k c a b _
        (find_usable_commitments-Chosen env token value s.entries) e found one in
    let picked = select_commitments-ok env token value started (a, b) e in
    let keeps = StaysPending-IsKept env id in
    (
      select_spend-after env id StaysPending keeps token value fee (a, b) started _ _ picked
          (finish_transfer-Keeps env id StaysPending keeps token value fee key r) k pending,
      select_spend-after env id StaysPending keeps token value fee (a, b) started _ _ picked
          (finish_withdraw-Keeps env id StaysPending keeps token value fee recipient_address r) k
          pending,
    )
