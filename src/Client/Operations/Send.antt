-- ===== src/Client/Operations/Send.antt =====
-- The sending of a transaction to the proposers: `send_to_proposer_with_retry` and
-- `process_transaction_offchain` of `nightfall_client/src/drivers/rest/client_operation.rs`. What the
-- proposers answer is an argument, and so is the library's test for a status of success.
use Prim.Native.String.{String}
use nightfall_4_ce.Common.{
  ℕ, zero, suc, ◌+◌, ◌*◌, ◌-◌, ◌^◌, ◌%◌, Bool, true, false, ◌&&◌, ◌||◌, List, [], ◌∷◌, Option, none,
  some, ltb, ◌==◌, if◌then◌else◌, Result, ok, err,
}
use nightfall_4_ce.Client.Entities.Defs.{submitted, failed, proposer_unreachable}
use nightfall_4_ce.Client.Records.Defs.{Request, update_request}

-- What a `post` comes back with: an HTTP status, or a network error that may be tried again or not.
pub data Answer : Type 0 where
  http : ℕ → Answer
  network : Bool → Answer

-- `BAD_GATEWAY`, `SERVICE_UNAVAILABLE` and `GATEWAY_TIMEOUT`.
unfoldable pub is_unavailable : ℕ → Bool
is_unavailable status = status == 502 || (status == 503 || status == 504)

-- How the sending ends, with the number of posts and the milliseconds slept between them. An error says
-- if the failure may be tried again.
pub record Sent : Type 0 where
  pub result : Result Bool (Unit {0})
  pub posts : ℕ
  pub slept : ℕ

abbrev pub max_retries : ℕ
max_retries = 3

abbrev pub initial_backoff : ℕ
initial_backoff = 500

module _ (is_success : ℕ → Bool) where
  -- Whether a further attempt follows this answer, if there is one left.
  unfoldable pub is_temporary : Answer → Bool
  unfolding is_unavailable
  is_temporary (http status) = if is_success status then false else is_unavailable status
  is_temporary (network retriable) = retriable

  -- What an answer is worth when no attempt follows it.
  unfoldable pub outcome_of : Answer → Result Bool (Unit {0})
  unfolding is_unavailable
  outcome_of (http status) = if is_success status then ok tt else err (is_unavailable status)
  outcome_of (network retriable) = err true

  -- The attempts from `attempt` to `last`, with the rounds that are left; the sleeps are multiples of
  -- `backoff` milliseconds, by a power that is a `u32` and wraps, as it does where overflows are not
  -- checked. A `Duration` has no bound here; that of the source holds less than 2 ^ 64 seconds.
  unfoldable pub attempts : (ℕ → Answer) → ℕ → ℕ → ℕ → ℕ → Sent
  unfolding is_temporary outcome_of
  attempts answer last backoff zero attempt = record { result = err true; posts = 0; slept = 0 }
  attempts answer last backoff (suc rounds) attempt =
      let rest = attempts answer last backoff rounds (attempt + 1) in
      if is_temporary (answer attempt) && ltb attempt last
      then record {
        result = rest.result;
        posts = rest.posts + 1;
        slept = rest.slept + backoff * (2 ^ (attempt - 1) % 2 ^ 32);
      }
      else record { result = outcome_of (answer attempt); posts = 1; slept = 0 }

  -- `none` is a URL that cannot be parsed.
  unfoldable pub send_to_proposer_with_retry : Option (ℕ → Answer) → ℕ → ℕ → Sent
  unfolding attempts
  send_to_proposer_with_retry none last backoff = record {
    result = err false;
    posts = 0;
    slept = 0;
  }
  send_to_proposer_with_retry (some answer) last backoff = attempts answer last backoff last 1

  unfoldable pub any_success : List Sent → Bool
  any_success [] = false
  any_success (r ∷ rs) = (elim r.result [ ok _ ↦ true | err _ ↦ false ]) || any_success rs

  unfoldable pub any_retriable : List Sent → Bool
  any_retriable [] = false
  any_retriable (r ∷ rs) =
      (elim r.result [ ok _ ↦ false | err retriable ↦ retriable ]) || any_retriable rs

  unfoldable pub send_to_all : List (Option (ℕ → Answer)) → List Sent
  unfolding send_to_proposer_with_retry
  send_to_all [] = []
  send_to_all (p ∷ ps) = send_to_proposer_with_retry p max_retries initial_backoff ∷ send_to_all ps

  -- The proposers are read from the contract, which may fail; an error of the call is `false`.
  unfoldable pub process_transaction_offchain :
      Option (List (Option (ℕ → Answer))) → String → List Request → Bool × List Request
  unfolding send_to_all any_success any_retriable
  process_transaction_offchain none id requests = (false, requests)
  process_transaction_offchain (some proposers) id requests =
      if any_success (send_to_all proposers)
      then (true, update_request id submitted requests)
      else if any_retriable (send_to_all proposers)
      then (false, update_request id proposer_unreachable requests)
      else (false, update_request id failed requests)
