-- ===== src/Client/Operations/Local.antt =====
-- The handlers of requests change the record of no other request, and never lose their own:
-- `nightfall_client/src/drivers/rest/client_nf_3.rs`.
use Prim.Native.String.{String}
use text.Mathlib.Text.{◌==◌}
use text.Mathlib.TextEquality.{eq_iff}
use nightfall_4_ce.Common.{
  ℕ, false, List, [], ◌∷◌, Option, some, ◌≡◌, refl, ap, ◌∙◌, inl, inr, Bool-cases, if◌then◌else◌,
}
use nightfall_4_ce.Client.Entities.Defs.{RequestStatus, queued}
use nightfall_4_ce.Client.Records.Defs.{Request, get_request, store_request, update_request}
use nightfall_4_ce.Client.Records.Laws.{get_request-update_request}
use nightfall_4_ce.Client.Events.Defs.{ClientState}
use nightfall_4_ce.Client.Operations.State.{Op}
use nightfall_4_ce.Client.Operations.Service.{Setting}
use nightfall_4_ce.Client.Operations.Handlers.{Reply, Randomness}
use nightfall_4_ce.Client.Operations.Requests.{TransactionRequest, handle_request}
use nightfall_4_ce.Client.Operations.Keeps.{IsKept, handle_request-Keeps}

get_request-store_request_other :
    (id k : String) (status : RequestStatus) (rs : List Request)
    → (id == k) ≡ false
    → get_request k (store_request id status rs) ≡ get_request k rs
unfolding get_request store_request
get_request-store_request_other id k status [] other = rw other refl
get_request-store_request_other id k status (r ∷ rs) other =
    ap (λ (o : Option Request). if r.uuid == k then some r else o)
      (get_request-store_request_other id k status rs other)

get_request-store_request :
    (id : String) (status : RequestStatus) (rs : List Request) (r : Request)
    → get_request id rs ≡ some r
    → get_request id (store_request id status rs) ≡ some r
unfolding get_request store_request
get_request-store_request id status [] r e = cc
get_request-store_request id status (q ∷ rs) r e = elim (Bool-cases (q.uuid == id)) [
  | inl here ↦ rw here (rw here at e)
  | inr away ↦ rw away (get_request-store_request id status rs r (rw away at e))
]

get_request-update_request_other :
    (id k : String) (status : RequestStatus) (rs : List Request)
    → (id == k) ≡ false
    → get_request k (update_request id status rs) ≡ get_request k rs
unfolding get_request update_request
get_request-update_request_other id k status [] other = refl
get_request-update_request_other id k status (r ∷ rs) other = elim (Bool-cases (r.uuid == id)) [
  | inl here ↦
      let elsewhere : (r.uuid == k) ≡ false =
        ap (λ (t : String). t == k) ((eq_iff r.uuid id).0 here) ∙ other in
      rw (here, get_request, elsewhere) refl
  | inr away ↦
      rw (away, get_request)
        (ap (λ (o : Option Request). if r.uuid == k then some r else o)
          (get_request-update_request_other id k status rs other))
]

-- Nothing that is found under another id has changed, and what is found under the own one still is.
pub record IsLocal (id : String) (s t : ClientState) : Type 0 where
  pub others :
      (k : String) → (id == k) ≡ false → get_request k t.requests ≡ get_request k s.requests
  pub own :
      (r : Request)
      → get_request id s.requests ≡ some r
      → (r' : Request) × (get_request id t.requests ≡ some r')

pub update_request-IsLocal :
    (id : String) (status : RequestStatus) (s : ClientState)
    → IsLocal id s (record s { requests = update_request id status s.requests })
update_request-IsLocal id status s = record {
  others = λ k other. get_request-update_request_other id k status s.requests other;
  own = λ r e.
      (record r { status = status }, get_request-update_request id status s.requests ∙ rw e refl);
}

IsLocal-same : (id : String) (s : ClientState) → IsLocal id s s
IsLocal-same id s = record { others = λ k other. refl; own = λ r e. (r, e) }

pub IsLocal-chain :
    (id : String) (s t u : ClientState) → IsLocal id s t → IsLocal id t u → IsLocal id s u
IsLocal-chain id s t u first second = record {
  others = λ k other. second.others k other ∙ first.others k other;
  own = λ r e. let (r', e') = first.own r e in second.own r' e';
}

IsLocal-IsKept : (env : Setting) (id : String) → IsKept env id (IsLocal id)
IsLocal-IsKept env id = record {
  same = IsLocal-same id;
  chain = IsLocal-chain id;
  stores_request = λ s. record {
    others = λ k other. get_request-store_request_other id k queued s.requests other;
    own = λ r e. (r, get_request-store_request id queued s.requests r e);
  };
  updates_request = update_request-IsLocal id;
  maps = λ text s. record { others = λ k other. refl; own = λ r e. (r, e) };
  stores = λ entry entries s stored. record { others = λ k other. refl; own = λ r e. (r, e) };
  stores_all = λ cs s. record { others = λ k other. refl; own = λ r e. (r, e) };
  selects = λ token target s. record { others = λ k other. refl; own = λ r e. (r, e) };
}

-- What the queue relies on: the interface of a handler.
abbrev pub IsLocalHandler : (ℕ → TransactionRequest → String → Op Reply) → Type 0
IsLocalHandler handle =
    (n : ℕ) (req : TransactionRequest) (id : String) (s : ClientState)
    → IsLocal id s (handle n req id s).1

-- However it ends, the handler of a deposit, a transfer or a withdrawal changes nothing that is
-- found under the id of another request, and under its own id finds a request if one was found
-- before.
pub handle_request-IsLocalHandler :
    (env : ℕ → Setting) (random : ℕ → Randomness)
    → IsLocalHandler (λ n req id. handle_request (env n) req (random n) id)
handle_request-IsLocalHandler env random n req id =
    handle_request-Keeps (env n) id (IsLocal id) (IsLocal-IsKept (env n) id) req (random n)
