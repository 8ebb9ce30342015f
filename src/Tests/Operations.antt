-- ===== src/Tests/Operations.antt =====
-- The queue of requests and the handlers of transfers and withdrawals at concrete inputs.
use Prim.Native.String.{String}
use nightfall_4_ce.Common.{
  ℕ, zero, suc, ◌+◌, ◌*◌, ◌≤◌, ◌≡◌, refl, arith, Bool, true, List, [], ◌∷◌, ◌++◌, Option, none,
  some, inl, ok, length, ◌==◌,
}
use nightfall_4_ce.Common.Sort.{sort}
use nightfall_4_ce.Field.{Fr254, ◌+F◌}
use nightfall_4_ce.Client.Entities.Defs.{
  Preimage, Point, unspent, transfer_salt, queued, hash_preimage,
}
use nightfall_4_ce.Client.Selection.Defs.{
  calculate_minimum_commitments, select_commitment, find_subset_commitments, values_below, total_of,
  two_pointers,
}
use nightfall_4_ce.Client.Commitments.Store.{
  CommitmentEntry, is_unspent, get_commitment, find_usable_commitments,
}
use nightfall_4_ce.Client.Records.Defs.{get_request}
use nightfall_4_ce.Client.Events.Defs.{ClientState}
use nightfall_4_ce.Client.Operations.State.{Op}
use nightfall_4_ce.Client.Operations.Send.{Answer, http, send_to_proposer_with_retry}
use nightfall_4_ce.Client.Operations.Service.{Setting, is_conserved}
use nightfall_4_ce.Client.Operations.Handlers.{Reply, deposit_reply, Randomness}
use nightfall_4_ce.Client.Operations.Requests.{
  TransactionRequest, withdraw_request, new_commitments, handle_transfer, handle_withdraw,
  handle_request,
}
use nightfall_4_ce.Client.Operations.Queue.{QueuedRequest, Service, push_request, drain}
use nightfall_4_ce.Client.Operations.Local.{IsLocalHandler, handle_request-IsLocalHandler}
use nightfall_4_ce.Client.Operations.Drain.{IsDrained, drain-IsDrained}
use nightfall_4_ce.Client.Operations.Conserved.{new_commitments-conserved}
use nightfall_4_ce.Client.Operations.Locked.{IsPending, StaysPending, handle_request-StaysPending}
use nightfall_4_ce.Client.Operations.Locks.{handle_transfer_locks}
use nightfall_4_ce.Client.Operations.Attempts.{IsSent, send_to_proposer_with_retry-IsSent}
use nightfall_4_ce.Client.Operations.Order.{
  Run, start, arrives, Run-ordered, process_request_overtakes,
}

abbrev origin : Point
origin = record { x = 0; y = 1 }

-- A hash that tells short lists of small numbers apart.
abbrev digest : List Fr254 → Option Fr254
digest [] = some 1
digest (x ∷ xs) = elim (digest xs) [ none ↦ none | some d ↦ some (x + 10 * d) ]

-- The first proposer has no valid URL; the second is unavailable once, and then accepts.
abbrev answers : ℕ → Answer
answers (suc zero) = http 503
answers _ = http 200

abbrev accepts : ℕ → Bool
accepts status = status == 200

abbrev setting : Setting
setting = record {
  hash = digest;
  to_hex = λ f. "c";
  default_point = origin;
  neutral = origin;
  shared_secret = λ p k. p;
  zkp_private_key = 3;
  zkp_public_key = record { x = 5; y = 6 };
  nullifier_key = 7;
  nf_address = 8;
  fee_token_id = 4;
  default_proof = record { node_value = 0; sibling_path = []; leaf_index = 0 };
  verify = λ p r. true;
  prove = λ i. none;
  set_approval = λ t a v i. true;
  escrow_funds = λ a v i f d s t. some (9, 9);
  is_success = accepts;
  proposers = some (none ∷ some answers ∷ []);
}

abbrev chance : Randomness
chance = record {
  salt_one = 1;
  salt_two = 2;
  salt_three = 3;
  salt_four = 4;
  ephemeral_key = 5;
  secret = record { preimage_one = 1; preimage_two = 2; preimage_three = 3 };
}

abbrev coin : ℕ → Preimage
coin v = record {
  value = v;
  nf_token_id = 9;
  nf_slot_id = 9;
  public_key = origin;
  salt = transfer_salt v;
}

abbrev entry : ℕ → ℕ → CommitmentEntry
entry v k = record {
  preimage = coin v;
  status = unspent;
  key = k;
  nullifier = k + 1;
  layer_1_transaction_hash = none;
  layer_2_block_number = none;
}

abbrev withdrawal : TransactionRequest
withdrawal =
    withdraw_request
      (record { nf_token_id = some 9; value = some 5; fee = none; recipient_address = some 2 })

abbrev item : QueuedRequest
item = record { transaction_request = withdrawal; uuid = "a" }

abbrev begun : ClientState
begun = record {
  expected = 0;
  blocks = [];
  tree = record { metadata = none; nodes = []; cache = [] };
  entries = entry 1 1110199 ∷ entry 2 1210299 ∷ entry 4 1410499 ∷ [];
  requests = record { status = queued; uuid = "a" } ∷ [];
  mappings = [];
}

-- The price is 5 of 1 + 4, and the fee 1 of 2 + 2.
new_commitments-conserved_example :
    is_conserved
      (coin 1 ∷ coin 4 ∷ coin 2 ∷ coin 2 ∷ [])
      (new_commitments setting (coin 1 ∷ coin 4 ∷ coin 2 ∷ coin 2 ∷ []) 9 5 1 origin 6 chance)
    ≡ true
new_commitments-conserved_example =
    new_commitments-conserved setting (coin 1 ∷ coin 4 ∷ coin 2 ∷ coin 2 ∷ []) 9 5 1 origin 6 chance
      (omega arith) (omega arith)

handle_transfer_locks_example :
    IsPending 1110199
      (handle_transfer setting
        (record {
          nf_token_id = some 9;
          values = some 5 ∷ [];
          fee = some 0;
          recipient_keys = some origin ∷ [];
        })
        chance
        "a"
        begun).1.entries
    × IsPending 1110199
        (handle_withdraw setting
          (record {
            nf_token_id = some 9;
            value = some 5;
            fee = some 0;
            recipient_address = some 2;
          })
          chance
          "a"
          begun).1.entries
unfolding find_usable_commitments is_unspent calculate_minimum_commitments sort ◌+F◌
    select_commitment find_subset_commitments values_below total_of two_pointers hash_preimage
    get_commitment
handle_transfer_locks_example =
    handle_transfer_locks setting 9 5 0 2 1110199 origin [] [] chance "a" begun (entry 1 1110199)
      (coin 1) (coin 4) refl refl (inl refl)

handle_request-StaysPending_example :
    StaysPending begun (handle_request setting withdrawal chance "a" begun).1
handle_request-StaysPending_example =
    handle_request-StaysPending setting withdrawal chance "a" begun

send_to_proposer_with_retry-IsSent_example :
    IsSent accepts answers 1 3 500 (send_to_proposer_with_retry accepts (some answers) 3 500)
send_to_proposer_with_retry-IsSent_example =
    send_to_proposer_with_retry-IsSent accepts answers 3 500 (omega arith) (omega arith)
      (omega arith)

abbrev handler : ℕ → TransactionRequest → String → Op Reply
handler n req id = handle_request setting req chance id

handler-IsLocal : IsLocalHandler handler
handler-IsLocal n req id s = handle_request-IsLocalHandler (λ n. setting) (λ n. chance) n req id s

drain-IsDrained_example :
    IsDrained handler handler-IsLocal (item ∷ []) (drain handler 0 (item ∷ []) begun)
unfolding get_request
drain-IsDrained_example =
    drain-IsDrained handler handler-IsLocal 0 (item ∷ []) begun (tt, tt)
      ((record { status = queued; uuid = "a" }, refl), tt)

one_run : Run 10 handler (item ∷ []) [] (record { queue = item ∷ []; client = begun })
unfolding push_request
one_run = arrives item (start begun) refl

Run-ordered_example : (item ∷ [] ≡ [] ++ item ∷ []) × (length {A = QueuedRequest} (item ∷ []) ≤ 10)
Run-ordered_example = Run-ordered 10 handler one_run

-- A handler that records nothing.
abbrev silent : ℕ → TransactionRequest → String → Op Reply
silent n req id s = (ok (deposit_reply []), s)

process_request_overtakes_example :
    (t : Service) × Run 10 silent (item ∷ []) (item ∷ []) t
    × (t.queue ≡ [])
    × (get_request "a" t.client.requests ≡ some (record { status = queued; uuid = "a" }))
unfolding get_request
process_request_overtakes_example =
    process_request_overtakes 10 silent 0 item (record begun { requests = [] }) (omega arith) refl
      refl
