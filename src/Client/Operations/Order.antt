-- ===== src/Client/Operations/Order.antt =====
-- The queue under any interleaving of the server, which queues requests, and of the task that handles
-- them: `queue_request` of `nightfall_client/src/drivers/rest/client_nf_3.rs` and `process_queue` of
-- `nightfall_client/src/driven/queue.rs`.
use Prim.Native.String.{String}
use text.Mathlib.Text.{◌==◌}
use text.Mathlib.TextPositions.{eq_refl}
use nightfall_4_ce.Common.{
  ℕ, ◌≤◌, ◌<◌, ◌≡◌, refl, sym, ap, ◌∙◌, arith, false, List, [], ◌∷◌, ◌++◌, Option, none, some, inl,
  inr, Bool-cases, leb, length, length-append, Result, ok, err,
}
use mathlib.Core.List.{append_assoc}
use nightfall_4_ce.Client.Entities.Defs.{RequestStatus, queued, processing, submitted, failed}
use nightfall_4_ce.Client.Records.Defs.{Request, get_request, store_request, update_request}
use nightfall_4_ce.Client.Events.Defs.{ClientState}
use nightfall_4_ce.Client.Operations.State.{
  HandlerError, json_conversion_error, deposit_error, database_error, custom_error, error,
  client_not_synchronized, panicked, Op,
}
use nightfall_4_ce.Client.Operations.Handlers.{Reply}
use nightfall_4_ce.Client.Operations.Requests.{TransactionRequest}
use nightfall_4_ce.Client.Operations.Queue.{
  QueuedRequest, Service, push_request, record_queued, process_request, mark_request, mark_outcome,
}

queue_of : Option Service → List QueuedRequest
queue_of none = []
queue_of (some s) = s.queue

module _ (max_queue_size : ℕ) (handle : ℕ → TransactionRequest → String → Op Reply) where
  -- The runs from an empty queue, with the requests that arrived and those that were handled. The two
  -- halves of `queue_request` are steps of their own, since the lock is dropped between them.
  pub data Run : List QueuedRequest → List QueuedRequest → Service → Type 0 where
    start : (client : ClientState) → Run [] [] (record { queue = []; client = client })
    arrives :
        {arrived handled : List QueuedRequest} {s s' : Service} (q : QueuedRequest)
        → Run arrived handled s
        → push_request max_queue_size q s ≡ some s'
        → Run (arrived ++ q ∷ []) handled s'
    records :
        {arrived handled : List QueuedRequest} {s : Service} (q : QueuedRequest)
        → Run arrived handled s
        → Run arrived handled (record_queued q.uuid s)
    handles :
        {arrived handled : List QueuedRequest} {s : Service} (n : ℕ) (q : QueuedRequest)
        (rest : List QueuedRequest)
        → Run arrived handled s
        → s.queue ≡ q ∷ rest
        → Run arrived
            (handled ++ q ∷ [])
            (record { queue = rest; client = (process_request handle n q s.client).1 })

  push_request_lem :
      (q : QueuedRequest) (s s' : Service)
      → push_request max_queue_size q s ≡ some s'
      → (s'.queue ≡ s.queue ++ q ∷ []) × (length s.queue < max_queue_size)
  unfolding push_request queue_of
  push_request_lem q s s' e = elim (Bool-cases (leb max_queue_size (length s.queue))) [
    | inl full ↦ (let e' : none ≡ some s' = rw (push_request, full) at e in cc)
    | inr free ↦
        let e' : some (record s { queue = s.queue ++ q ∷ [] }) ≡ some s' =
          rw (push_request, free) at e in
        (sym (ap queue_of e'), ground (arith, free))
  ]

  -- In every run of the server and the queue's task from an empty queue, in which the two halves of
  -- `queue_request` are steps of their own and the handler is arbitrary, the requests that arrived
  -- are those that were handled, in the same order, followed by the queue, which never holds more
  -- than its limit.
  pub Run-ordered :
      {arrived handled : List QueuedRequest} {s : Service}
      → Run arrived handled s
      → (arrived ≡ handled ++ s.queue) × (length s.queue ≤ max_queue_size)
  unfolding record_queued
  Run-ordered (start client) = (refl, omega arith)
  Run-ordered (arrives {arrived} {handled} {s} {s'} q r e) =
      let (order, bound) = Run-ordered r in
      let (queue, room) = push_request_lem q s s' e in
      (
        ap (λ (l : List QueuedRequest). l ++ q ∷ []) order
            ∙ append_assoc handled s.queue (q ∷ [])
            ∙ ap (λ (l : List QueuedRequest). handled ++ l) (sym queue),
        omega (
          arith,
          ap (λ (l : List QueuedRequest). length l) queue,
          length-append s.queue (q ∷ []),
          room,
        ),
      )
  Run-ordered (records q r) = Run-ordered r
  Run-ordered (handles {arrived} {handled} {s} n q rest r e) =
      let (order, bound) = Run-ordered r in
      (
        order
            ∙ ap (λ (l : List QueuedRequest). handled ++ l) e
            ∙ sym (append_assoc handled (q ∷ []) rest),
        omega (arith, bound, ap (λ (l : List QueuedRequest). length l) e),
      )

update_request_missing :
    (id : String) (status : RequestStatus) (rs : List Request)
    → get_request id rs ≡ none
    → update_request id status rs ≡ rs
unfolding get_request update_request
update_request_missing id status [] e = refl
update_request_missing id status (r ∷ rs) e = elim (Bool-cases (r.uuid == id)) [
  | inl here ↦ (let e' : some r ≡ none = rw here at e in cc)
  | inr away ↦
      rw away
        (ap (λ (l : List Request). r ∷ l) (update_request_missing id status rs (rw away at e)))
]

get_request-store_request_new :
    (id : String) (status : RequestStatus) (rs : List Request)
    → get_request id rs ≡ none
    → get_request id (store_request id status rs) ≡ some (record { status = status; uuid = id })
unfolding get_request store_request
get_request-store_request_new id status [] e = rw (eq_refl id) refl
get_request-store_request_new id status (r ∷ rs) e = elim (Bool-cases (r.uuid == id)) [
  | inl here ↦ (let e' : some r ≡ none = rw here at e in cc)
  | inr away ↦ rw away (get_request-store_request_new id status rs (rw away at e))
]

marked_missing :
    (id : String) (status : RequestStatus) (s : ClientState)
    → get_request id s.requests ≡ none
    → get_request id (mark_request id status s).requests ≡ none
unfolding mark_request
marked_missing id status s e = rw (update_request_missing id status s.requests e) e

mark_outcome_missing :
    (id : String) (o : Result HandlerError Reply × ClientState)
    → get_request id o.1.requests ≡ none
    → get_request id (mark_outcome id o).1.requests ≡ none
unfolding mark_outcome mark_request
mark_outcome_missing id (ok reply, s) e = marked_missing id submitted s e
mark_outcome_missing id (err panicked, s) e = e
mark_outcome_missing id (err json_conversion_error, s) e = marked_missing id failed s e
mark_outcome_missing id (err deposit_error, s) e = marked_missing id failed s e
mark_outcome_missing id (err database_error, s) e = marked_missing id failed s e
mark_outcome_missing id (err custom_error, s) e = marked_missing id failed s e
mark_outcome_missing id (err error, s) e = marked_missing id failed s e
mark_outcome_missing id (err client_not_synchronized, s) e = marked_missing id failed s e

leb_positive : (n : ℕ) → 0 < n → leb n 0 ≡ false
leb_positive n h = ground arith

module _ (max_queue_size : ℕ) (handle : ℕ → TransactionRequest → String → Op Reply) where
  -- Where the queue's limit is positive, the client has no request recorded under an id, and the
  -- handler, run on this client, records none under it, there is a run from the empty queue in
  -- which the request with this id arrives, and it alone, is handled, and is recorded after that:
  -- the queue is empty then, and the request is recorded as queued.
  pub process_request_overtakes :
      (n : ℕ) (q : QueuedRequest) (s : ClientState)
      → 0 < max_queue_size
      → get_request q.uuid s.requests ≡ none
      → get_request q.uuid (handle n q.transaction_request q.uuid s).1.requests ≡ none
      → (t : Service) × Run max_queue_size handle (q ∷ []) (q ∷ []) t
        × (t.queue ≡ [])
        × (get_request q.uuid t.client.requests ≡ some (record { status = queued; uuid = q.uuid }))
  unfolding push_request record_queued process_request mark_request
  process_request_overtakes n q s room fresh kept =
      let missed : get_request q.uuid (process_request handle n q s).1.requests ≡ none =
        mark_outcome_missing q.uuid
          (handle n q.transaction_request q.uuid (mark_request q.uuid processing s))
          (rw (update_request_missing q.uuid processing s.requests fresh) kept) in
      (
        _,
        records q (
            handles n q [] (arrives q (start s) (rw (leb_positive max_queue_size room) refl)) refl),
        refl,
        get_request-store_request_new q.uuid queued _ missed,
      )
