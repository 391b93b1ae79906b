-- ===== src/Mobile/Flush/Tests.antt =====
-- A flush of one change, which the server accepts.
use arctic_rss.Prelude.{ℕ, ◌≡◌, refl, true, none, [], ◌∷◌, codes, split_at, text_eq, arith}
use arctic_rss.Mobile.Mutation.{
  PendingMutation, MutationOwner, MutationState, assert_pending_mutation, assert_queued_mutation,
  describe_mutation, same_descriptor,
}
use arctic_rss.Mobile.Mutation.Route.{
  Method, Operation, describe_path, is_queued_path, is_key, operation_eq,
}
use arctic_rss.Mobile.Replay.{
  is_replayable_mutation, start_pending_mutation, complete_pending_mutation,
}
use arctic_rss.Mobile.Queue.{
  row_of, delete_keys, by_time, insert_by_time, find_row, read_row, mutations, corrupt_keys,
  update_pending_mutation, complete_queued, recover, first_replayable, start_first,
  next_replayable_mutation,
}
use arctic_rss.Mobile.Flush.{Round, Flushed, flush_pending_mutations, flush_round, replay}
use arctic_rss.Mobile.Flush.Termination.{Ends, flush_pending_mutations-Ends}

abbrev owner : MutationOwner
owner = record { mobile_device_id = codes "phone"; user_id = codes "ann" }

abbrev json_length : PendingMutation → ℕ
json_length m = 400

abbrev queued : PendingMutation
queued = record {
  request = record {
    body = none;
    idempotency_key = codes "0123456789abcdef";
    method = Method.patch;
    path = codes "/api/v1/articles/a1/state";
    created_at = 1000;
    expected_version = none;
  };
  attempt_count = 0;
  id = codes "mutation:0123456789abcdef";
  last_attempt_at = none;
  last_error_code = none;
  mobile_device_id = codes "phone";
  next_attempt_at = none;
  operation = Operation.article_state_update;
  owner_user_id = codes "ann";
  resource_id = codes "a1";
  state = MutationState.pending;
  updated_at = 1000;
}

abbrev rounds : ℕ → Round
rounds i = record {
  next_owner = true;
  next_time = 2000;
  answer = none;
  complete_owner = true;
  complete_time = 3000;
  fail_owner = true;
  fail_time = 3000;
}

abbrev completed_in : Flushed → ℕ
completed_in (Flushed.done rows completed conflicts) = completed
completed_in _ = 0

one_sent :
    completed_in (flush_pending_mutations json_length owner 2 rounds 0 (row_of queued ∷ []) 0 0) ≡ 1
unfolding flush_pending_mutations flush_round replay next_replayable_mutation recover
    first_replayable start_first by_time insert_by_time read_row delete_keys corrupt_keys mutations
    start_pending_mutation assert_pending_mutation assert_queued_mutation describe_mutation
    same_descriptor describe_path is_queued_path is_key operation_eq split_at text_eq
    is_replayable_mutation complete_queued update_pending_mutation find_row
    complete_pending_mutation
one_sent = refl

flush_pending_mutations-Ends_example :
    Ends 1 (flush_pending_mutations json_length owner 2 rounds 0 (row_of queued ∷ []) 0 0)
flush_pending_mutations-Ends_example =
    flush_pending_mutations-Ends json_length owner 2 rounds (row_of queued ∷ []) (omega arith)
