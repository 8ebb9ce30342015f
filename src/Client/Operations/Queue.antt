-- ===== src/Client/Operations/Queue.antt =====
-- The queue of requests: `queue_request` of `nightfall_client/src/drivers/rest/client_nf_3.rs` and
-- `process_queue` of `nightfall_client/src/driven/queue.rs`. The handler of a request is an argument,
-- which also takes the number of requests handled before it, since the world may answer each one
-- differently. The notification of the outcome is left out.
use Prim.Native.String.{String}
use nightfall_4_ce.Common.{
  ℕ, ◌+◌, Bool, true, false, List, [], ◌∷◌, ◌++◌, Option, none, some, leb, if◌then◌else◌, Result,
  ok, err, length, not,
}
use nightfall_4_ce.Client.Entities.Defs.{
  RequestStatus, queued, submitted, failed, processing, SynchronisationPhase, desynchronized,
}
use nightfall_4_ce.Client.Records.Defs.{store_request, update_request}
use nightfall_4_ce.Client.Events.Defs.{ClientState}
use nightfall_4_ce.Client.Operations.State.{HandlerError, panicked, Op}
use nightfall_4_ce.Client.Operations.Handlers.{Reply}
use nightfall_4_ce.Client.Operations.Requests.{TransactionRequest}

pub record QueuedRequest : Type 0 where
  pub transaction_request : TransactionRequest
  pub uuid : String

-- The queue, and the client's collections.
pub record Service : Type 0 where
  pub queue : List QueuedRequest
  pub client : ClientState

pub data QueueReply : Type 0 where
  request_queued queue_full invalid_request_id : QueueReply

-- The first half of `queue_request`, under the lock of the queue; `none` is a full queue.
unfoldable pub push_request : ℕ → QueuedRequest → Service → Option Service
push_request max_queue_size r s =
    if leb max_queue_size (length s.queue)
    then none
    else some (record s { queue = s.queue ++ r ∷ [] })

-- The second half, without the lock.
unfoldable pub record_queued : String → Service → Service
record_queued id s = record s {
  client = record (s.client) { requests = store_request id queued s.client.requests };
}

-- A missing id is the empty text; what a valid one is, the library says.
unfoldable pub queue_request :
    (String → Bool) → ℕ → TransactionRequest → Option String → Service → QueueReply × Service
unfolding push_request record_queued
queue_request is_uuid max_queue_size req request_id s =
    let id : String = elim request_id [ none ↦ "" | some i ↦ i ] in
    if not (is_uuid id)
    then (invalid_request_id, s)
    else elim (push_request max_queue_size (record { transaction_request = req; uuid = id }) s) [
      | none ↦ (queue_full, s)
      | some s' ↦ (request_queued, record_queued id s')
    ]

unfoldable pub mark_request : String → RequestStatus → ClientState → ClientState
mark_request id status s = record s { requests = update_request id status s.requests }

-- After the handler: its outcome in the status of the request, unless it panicked, which is `false`.
unfoldable pub mark_outcome : String → Result HandlerError Reply × ClientState → Bool × ClientState
unfolding mark_request
mark_outcome id (ok _, s) = (true, mark_request id submitted s)
mark_outcome id (err panicked, s) = (false, s)
mark_outcome id (err _, s) = (true, mark_request id failed s)

module _ (handle : ℕ → TransactionRequest → String → Op Reply) where
  unfoldable pub process_request : ℕ → QueuedRequest → ClientState → Bool × ClientState
  unfolding mark_outcome
  process_request n r s =
      mark_outcome r.uuid (handle n r.transaction_request r.uuid (mark_request r.uuid processing s))

  -- The inner loop of `process_queue`, on a queue to which nothing is added: whether the task is still
  -- running, and what is left.
  unfoldable pub drain : ℕ → List QueuedRequest → ClientState → Bool × Service
  unfolding process_request
  drain n [] s = (true, record { queue = []; client = s })
  drain n (r ∷ rs) s =
      let (running, s') = process_request n r s in
      if running then drain (n + 1) rs s' else (false, record { queue = rs; client = s' })

  -- One round of the outer loop: whether the event listener is restarted, whether the task is still
  -- running, and what is left. Where the status of the synchronisation cannot be read, the task ends.
  unfoldable pub process_queue_once :
      Option SynchronisationPhase → ℕ → Service → Bool × (Bool × Service)
  unfolding drain
  process_queue_once none n s = (false, (false, s))
  process_queue_once (some desynchronized) n s = (true, drain n s.queue s.client)
  process_queue_once (some _) n s = (false, drain n s.queue s.client)
