-- ===== src/Mobile/Queue/Tests.antt =====
-- A queue that gets one change.
use arctic_rss.Prelude.{
  ℕ, ◌≤◌, ◌≡◌, refl, true, none, some, List, [], ◌∷◌, codes, split_at, text_eq,
}
use arctic_rss.Mobile.Mutation.{
  PendingMutation, QueuedMutation, MutationOwner, MutationState, returns, max_mutation_attempts,
  create_pending_mutation, assert_pending_mutation, assert_queued_mutation, describe_mutation,
  same_descriptor,
}
use arctic_rss.Mobile.Mutation.Route.{
  Method, Operation, describe_path, is_queued_path, is_key, operation_eq,
}
use arctic_rss.Mobile.Replay.{
  is_replayable_mutation, start_pending_mutation, complete_pending_mutation,
}
use arctic_rss.Mobile.Replay.Outcome.{complete, act}
use arctic_rss.Mobile.Queue.{
  Row, key_of, row_of, delete_keys, by_time, insert_by_time, find_row, read_row, mutations,
  corrupt_keys, completed_keys, queue_mutation, update_pending_mutation, complete_queued, recover,
  first_replayable, start_first, next_replayable_mutation, maximum_pending_mutations,
}
use arctic_rss.Mobile.Queue.Capacity.{active_count, queue_mutation-fits}
use arctic_rss.Mobile.Queue.Updates.{
  Updated, update_pending_mutation-Updated, next_replayable-sending,
}

abbrev request : QueuedMutation
request = record {
  body = none;
  idempotency_key = codes "0123456789abcdef";
  method = Method.patch;
  path = codes "/api/v1/articles/a1/state";
  created_at = 1000;
  expected_version = none;
}

abbrev owner : MutationOwner
owner = record { mobile_device_id = codes "phone"; user_id = codes "ann" }

abbrev json_length : PendingMutation → ℕ
json_length m = 400

abbrev queued : PendingMutation
queued = record {
  request = request;
  attempt_count = 0;
  id = codes "mutation:0123456789abcdef";
  last_attempt_at = none;
  last_error_code = none;
  mobile_device_id = codes "phone";
  next_attempt_at = none;
  operation = Operation.article_state_update;
  owner_user_id = codes "ann";
  resource_id = codes "a1";
  state = MutationState.pending;
  updated_at = 1000;
}

abbrev sent : PendingMutation
sent = record queued {
  attempt_count = 1;
  last_attempt_at = some 2000;
  state = MutationState.sending;
  updated_at = 2000;
}

abbrev done : PendingMutation
done = record sent { state = MutationState.completed; updated_at = 3000 }

abbrev table : List Row
table = row_of queued ∷ []

accepted : queue_mutation json_length true owner request [] ≡ returns table
unfolding queue_mutation create_pending_mutation assert_pending_mutation assert_queued_mutation
    describe_mutation same_descriptor describe_path is_queued_path is_key operation_eq split_at
    text_eq delete_keys corrupt_keys mutations completed_keys
accepted = refl

chosen :
    next_replayable_mutation json_length true 2000 table ≡ returns (row_of sent ∷ [], some sent)
unfolding next_replayable_mutation recover first_replayable start_first by_time insert_by_time
    read_row delete_keys corrupt_keys mutations start_pending_mutation assert_pending_mutation
    assert_queued_mutation describe_mutation same_descriptor describe_path is_queued_path is_key
    operation_eq split_at text_eq is_replayable_mutation
chosen = refl

completed :
    complete_queued json_length true owner (key_of sent) 3000 (row_of sent ∷ [])
    ≡ returns (row_of done ∷ [], done)
unfolding complete_queued update_pending_mutation find_row read_row complete_pending_mutation
    assert_pending_mutation assert_queued_mutation describe_mutation same_descriptor describe_path
    is_queued_path is_key operation_eq split_at text_eq
completed = refl

updated :
    update_pending_mutation json_length true owner
      (key_of sent)
      (act json_length (complete 3000))
      (row_of sent ∷ [])
    ≡ returns (row_of done ∷ [], done)
unfolding complete_queued act
updated = completed

queue_mutation-fits_example :
    (active_count json_length table ≤ maximum_pending_mutations)
    × ((m : PendingMutation) × ((create_pending_mutation json_length request owner ≡ returns m)
          × (find_row (key_of m) table ≡ some (row_of m))))
queue_mutation-fits_example = queue_mutation-fits json_length true owner request [] accepted

next_replayable-sending_example :
    (sent.state ≡ MutationState.sending)
    × ((sent.attempt_count ≤ max_mutation_attempts)
        × (find_row (key_of sent) (row_of sent ∷ []) ≡ some (row_of sent)))
next_replayable-sending_example =
    next_replayable-sending json_length true 2000 table (row_of sent ∷ []) sent chosen

update_pending_mutation-Updated_example :
    (true ≡ true)
    × Updated json_length owner
        (key_of sent)
        (complete 3000)
        (row_of sent ∷ [])
        (row_of done ∷ [])
        done
update_pending_mutation-Updated_example =
    update_pending_mutation-Updated json_length true owner (key_of sent) (complete 3000)
      (row_of sent ∷ []) (row_of done ∷ []) done updated
