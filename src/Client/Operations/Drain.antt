-- ===== src/Client/Operations/Drain.antt =====
-- A queue that is drained, `process_queue` of `nightfall_client/src/driven/queue.rs`: its requests are
-- handled in their order, and each ends as submitted or as failed.
use Prim.Native.String.{String}
use text.Mathlib.Text.{◌==◌}
use text.Mathlib.TextEquality.{eq_iff}
use nightfall_4_ce.Common.{
  ℕ, ◌+◌, Bool, true, false, List, [], ◌∷◌, ◌++◌, some, ◌≡◌, ◌≢◌, ◌⊎◌, refl, sym, ap, ◌∙◌, inl, inr,
  Bool-cases, Result, ok, err,
}
use nightfall_4_ce.Client.Entities.Defs.{RequestStatus, submitted, failed, processing}
use nightfall_4_ce.Client.Records.Defs.{Request, get_request}
use nightfall_4_ce.Client.Records.Laws.{get_request-update_request}
use nightfall_4_ce.Client.Events.Defs.{ClientState}
use nightfall_4_ce.Client.Operations.State.{
  HandlerError, json_conversion_error, deposit_error, database_error, custom_error, error,
  client_not_synchronized, panicked, Op,
}
use nightfall_4_ce.Client.Operations.Handlers.{Reply}
use nightfall_4_ce.Client.Operations.Requests.{TransactionRequest}
use nightfall_4_ce.Client.Operations.Queue.{
  QueuedRequest, Service, mark_request, mark_outcome, process_request, drain,
}
use nightfall_4_ce.Client.Operations.Local.{
  IsLocal, IsLocal-chain, update_request-IsLocal, IsLocalHandler,
}

other_text : (a b : String) → a ≢ b → (a == b) ≡ false
other_text a b h = elim (Bool-cases (a == b)) [
  | inl same ↦ absurd (h ((eq_iff a b).0 same))
  | inr other ↦ other
]

-- The request is recorded as submitted or as failed.
abbrev pub IsFinished : ClientState → QueuedRequest → Type 0
IsFinished s q =
    (r : Request) × (get_request q.uuid s.requests ≡ some r)
    × ((r.status ≡ submitted) ⊎ (r.status ≡ failed))

abbrev pub AllFinished : ClientState → List QueuedRequest → Type 0
AllFinished s [] = Unit {0}
AllFinished s (q ∷ qs) = IsFinished s q × AllFinished s qs

abbrev pub AllStored : ClientState → List QueuedRequest → Type 0
AllStored s [] = Unit {0}
AllStored s (q ∷ qs) = ((r : Request) × (get_request q.uuid s.requests ≡ some r)) × AllStored s qs

-- The id is none of the queue's.
abbrev pub IsFresh : String → List QueuedRequest → Type 0
IsFresh id [] = Unit {0}
IsFresh id (q ∷ qs) = (id ≢ q.uuid) × IsFresh id qs

abbrev pub HasDistinctUuids : List QueuedRequest → Type 0
HasDistinctUuids [] = Unit {0}
HasDistinctUuids (q ∷ qs) = IsFresh q.uuid qs × HasDistinctUuids qs

AllStored-IsLocal :
    (id : String) (s t : ClientState) (qs : List QueuedRequest)
    → IsLocal id s t
    → IsFresh id qs
    → AllStored s qs
    → AllStored t qs
AllStored-IsLocal id s t [] d fresh stored = tt
AllStored-IsLocal id s t (q ∷ qs) d fresh stored =
    let (r, e) = stored.0 in
    (
      (r, d.others q.uuid (other_text id q.uuid fresh.0) ∙ e),
      AllStored-IsLocal id s t qs d fresh.1 stored.1,
    )

mark_request-IsFinished :
    (q : QueuedRequest) (status : RequestStatus) (s : ClientState) (r : Request)
    → get_request q.uuid s.requests ≡ some r
    → (status ≡ submitted) ⊎ (status ≡ failed)
    → IsFinished (mark_request q.uuid status s) q
unfolding mark_request
mark_request-IsFinished q status s r e final = (
  record r { status = status },
  get_request-update_request q.uuid status s.requests ∙ rw e refl,
  final,
)

-- What the marks after a handler do, by how it ended.
record IsMarked (q : QueuedRequest) (s : ClientState) (out : Bool × ClientState) : Type 0 where
  local : IsLocal q.uuid s out.1
  finished : out.0 ≡ true → IsFinished out.1 q

failed-IsMarked :
    (q : QueuedRequest) (s t : ClientState) (r : Request)
    → get_request q.uuid t.requests ≡ some r
    → IsLocal q.uuid s t
    → IsMarked q s (true, mark_request q.uuid failed t)
unfolding mark_request
failed-IsMarked q s t r e d = record {
  local = IsLocal-chain q.uuid s t _ d (update_request-IsLocal q.uuid failed t);
  finished = λ _. mark_request-IsFinished q failed t r e (inr refl);
}

mark_outcome-IsMarked :
    (q : QueuedRequest) (s : ClientState) (r : Request)
    (o : Result HandlerError Reply × ClientState)
    → get_request q.uuid o.1.requests ≡ some r
    → IsLocal q.uuid s o.1
    → IsMarked q s (mark_outcome q.uuid o)
unfolding mark_outcome mark_request
mark_outcome-IsMarked q s r (ok reply, t) e d = record {
  local = IsLocal-chain q.uuid s t _ d (update_request-IsLocal q.uuid submitted t);
  finished = λ _. mark_request-IsFinished q submitted t r e (inl refl);
}
mark_outcome-IsMarked q s r (err panicked, t) e d = record { local = d; finished = λ h. cc }
mark_outcome-IsMarked q s r (err json_conversion_error, t) e d = failed-IsMarked q s t r e d
mark_outcome-IsMarked q s r (err deposit_error, t) e d = failed-IsMarked q s t r e d
mark_outcome-IsMarked q s r (err database_error, t) e d = failed-IsMarked q s t r e d
mark_outcome-IsMarked q s r (err custom_error, t) e d = failed-IsMarked q s t r e d
mark_outcome-IsMarked q s r (err error, t) e d = failed-IsMarked q s t r e d
mark_outcome-IsMarked q s r (err client_not_synchronized, t) e d = failed-IsMarked q s t r e d

module _ (handle : ℕ → TransactionRequest → String → Op Reply) (local : IsLocalHandler handle) where
  process_request-IsMarked :
      (n : ℕ) (q : QueuedRequest) (s : ClientState) (r : Request)
      → get_request q.uuid s.requests ≡ some r
      → IsMarked q s (process_request handle n q s)
  unfolding process_request mark_request
  process_request-IsMarked n q s r e =
      let begun : IsLocal q.uuid s (mark_request q.uuid processing s) =
        update_request-IsLocal q.uuid processing s in
      let ran : IsLocal q.uuid s
          (handle n q.transaction_request q.uuid (mark_request q.uuid processing s)).1 =
        IsLocal-chain q.uuid s (mark_request q.uuid processing s) _ begun
          (local n q.transaction_request q.uuid (mark_request q.uuid processing s)) in
      let (r', e') = ran.own r e in mark_outcome-IsMarked q s r' _ e' ran

  drain_others :
      (n : ℕ) (qs : List QueuedRequest) (s : ClientState) (id : String)
      → IsFresh id qs
      → AllStored s qs
      → HasDistinctUuids qs
      → get_request id (drain handle n qs s).1.client.requests ≡ get_request id s.requests
  unfolding drain
  drain_others n [] s id fresh stored distinct = refl
  drain_others n (q ∷ qs) s id fresh stored distinct =
      let (r, e) = stored.0 in
      let m = process_request-IsMarked n q s r e in
      let same = m.local.others id (other_text q.uuid id (λ p. fresh.0 (sym p))) in
      elim (Bool-cases (process_request handle n q s).0) [
        | inl running ↦
            rw (drain, running)
              (drain_others (n + 1) qs (process_request handle n q s).1 id fresh.1
                  (AllStored-IsLocal q.uuid s _ qs m.local distinct.0 stored.1) distinct.1
                ∙ same)
        | inr stopped ↦ rw (drain, stopped) same
      ]

  -- How a queue `qs` is drained to `out`: the requests `done` are finished, and they are all of them, or
  -- the handler of the next one panicked, and the ones behind it are still in the queue.
  pub record IsDrained (qs : List QueuedRequest) (out : Bool × Service) : Type 0 where
    pub done : List QueuedRequest
    pub finished : AllFinished out.1.client done
    pub ended :
        ((out.0 ≡ true) × (out.1.queue ≡ []) × (qs ≡ done))
        ⊎ ((q : QueuedRequest) × (out.0 ≡ false)
            × (qs ≡ done ++ q ∷ out.1.queue)
            × AllStored out.1.client out.1.queue)

  more-IsDrained :
      (q : QueuedRequest) (qs : List QueuedRequest) (out : Bool × Service)
      → IsFinished out.1.client q
      → IsDrained qs out
      → IsDrained (q ∷ qs) out
  more-IsDrained q qs out first d = record {
    done = q ∷ d.done;
    finished = (first, d.finished);
    ended = elim d.ended [
      | inl (running, empty, all) ↦ inl (running, empty, ap (λ (t : List QueuedRequest). q ∷ t) all)
      | inr (p, stopped, rest, stored) ↦
          inr (p, stopped, ap (λ (t : List QueuedRequest). q ∷ t) rest, stored)
    ];
  }

  -- With any handler that changes the record of its own request only and never loses it, a queue
  -- whose requests are recorded under different ids is drained from its front. Either the task
  -- still runs, the queue is empty, and every request is recorded as submitted or failed; or the
  -- handler of a request panicked, the ones before it are recorded as submitted or failed, and the
  -- ones behind it are still queued in their order, and recorded.
  pub drain-IsDrained :
      (n : ℕ) (qs : List QueuedRequest) (s : ClientState)
      → HasDistinctUuids qs
      → AllStored s qs
      → IsDrained qs (drain handle n qs s)
  unfolding drain
  drain-IsDrained n [] s distinct stored = record {
    done = [];
    finished = tt;
    ended = inl (refl, refl, refl);
  }
  drain-IsDrained n (q ∷ qs) s distinct stored =
      let (r, e) = stored.0 in
      let m = process_request-IsMarked n q s r e in
      let s' = (process_request handle n q s).1 in
      let later = AllStored-IsLocal q.uuid s s' qs m.local distinct.0 stored.1 in
      elim (Bool-cases (process_request handle n q s).0) [
        | inl running ↦
            let (r', e', final) = m.finished running in
            rw (drain, running)
              (more-IsDrained q qs (drain handle (n + 1) qs s')
                (r', drain_others (n + 1) qs s' q.uuid distinct.0 later distinct.1 ∙ e', final)
                (drain-IsDrained (n + 1) qs s' distinct.1 later))
        | inr stopped ↦
            rw (drain, stopped)
              (record { done = []; finished = tt; ended = inr (q, refl, refl, later) })
      ]
