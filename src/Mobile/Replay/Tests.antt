-- ===== src/Mobile/Replay/Tests.antt =====
-- One queued change, and its life.
use arctic_rss.Prelude.{
  ℕ, ◌+◌, ◌≤◌, ◌≡◌, ◌≢◌, refl, none, some, List, [], ◌∷◌, codes, split_at, text_eq, arith,
}
use arctic_rss.Mobile.Mutation.{
  PendingMutation, QueuedMutation, MutationOwner, MutationState, returns, max_mutation_attempts,
  create_pending_mutation, assert_pending_mutation, assert_queued_mutation, describe_mutation,
  same_descriptor,
}
use arctic_rss.Mobile.Mutation.Route.{
  Method, Operation, describe_path, is_queued_path, is_key, operation_eq,
}
use arctic_rss.Mobile.Replay.{
  is_replayable_mutation, Failure, fail_pending_mutation, start_pending_mutation,
  retry_pending_mutation,
}
use arctic_rss.Mobile.Replay.Validity.{IsAcceptable}
use arctic_rss.Mobile.Replay.Outcome.{
  Act, start, complete, retry, fail, act, act-IsAcceptable, act_backdated,
}
use arctic_rss.Mobile.Replay.Lives.{live, live_bounded, retry_exhausted_futile}

abbrev request : QueuedMutation
request = record {
  body = none;
  idempotency_key = codes "0123456789abcdef";
  method = Method.patch;
  path = codes "/api/v1/articles/a1/state";
  created_at = 1000;
  expected_version = none;
}

abbrev owner : MutationOwner
owner = record { mobile_device_id = codes "phone"; user_id = codes "ann" }

abbrev json_length : PendingMutation → ℕ
json_length m = 400

abbrev queued : PendingMutation
queued = record {
  request = request;
  attempt_count = 0;
  id = codes "mutation:0123456789abcdef";
  last_attempt_at = none;
  last_error_code = none;
  mobile_device_id = codes "phone";
  next_attempt_at = none;
  operation = Operation.article_state_update;
  owner_user_id = codes "ann";
  resource_id = codes "a1";
  state = MutationState.pending;
  updated_at = 1000;
}

created : create_pending_mutation json_length request owner ≡ returns queued
unfolding create_pending_mutation assert_pending_mutation assert_queued_mutation describe_mutation
    same_descriptor describe_path is_queued_path is_key operation_eq split_at text_eq
created = refl

abbrev sent : PendingMutation
sent = record queued {
  attempt_count = 1;
  last_attempt_at = some 2000;
  state = MutationState.sending;
  updated_at = 2000;
}

started_once : act json_length (start 2000) queued ≡ returns sent
unfolding act start_pending_mutation assert_pending_mutation assert_queued_mutation
    describe_mutation same_descriptor describe_path is_queued_path is_key operation_eq
    is_replayable_mutation split_at text_eq
started_once = refl

abbrev backdated : PendingMutation
backdated = record sent { last_attempt_at = some 900; updated_at = 900 }

started_early : act json_length (start 900) queued ≡ returns backdated
unfolding act start_pending_mutation assert_pending_mutation assert_queued_mutation
    describe_mutation same_descriptor describe_path is_queued_path is_key operation_eq
    is_replayable_mutation split_at text_eq
started_early = refl

abbrev exhausted : PendingMutation
exhausted = record queued { attempt_count = 10; state = MutationState.permanent_failure }

abbrev renewed : PendingMutation
renewed = record queued { attempt_count = 10; updated_at = 3000 }

abbrev ended : PendingMutation
ended = record queued {
  attempt_count = 10;
  last_error_code = some (codes "RETRY_LIMIT_REACHED");
  state = MutationState.permanent_failure;
  updated_at = 4000;
}

retried : act json_length (retry 3000) exhausted ≡ returns renewed
unfolding act retry_pending_mutation assert_pending_mutation assert_queued_mutation
    describe_mutation same_descriptor describe_path is_queued_path is_key operation_eq split_at
    text_eq
retried = refl

started_last : act json_length (start 4000) renewed ≡ returns ended
unfolding act start_pending_mutation fail_pending_mutation assert_pending_mutation
    assert_queued_mutation describe_mutation same_descriptor describe_path is_queued_path is_key
    operation_eq is_replayable_mutation split_at text_eq
started_last = refl

act-IsAcceptable_example : IsAcceptable json_length sent
act-IsAcceptable_example =
    act-IsAcceptable json_length (start 2000) queued started_once (omega arith) (omega arith)

act_backdated_example : act json_length (complete 1950) backdated ≢ returns queued
act_backdated_example =
    act_backdated json_length (start 900) queued started_early (omega arith) (complete 1950) queued

retry_exhausted_futile_example : ended.state ≡ MutationState.permanent_failure
retry_exhausted_futile_example =
    retry_exhausted_futile json_length 3000 4000 exhausted renewed ended refl retried started_last

abbrev acts : List Act
acts =
    start 2000
    ∷ fail (codes "OFFLINE") Failure.retryable_failure 2100
    ∷ start 7099
    ∷ start 7100
    ∷ complete 7200
    ∷ []

live_bounded_example :
    ((live json_length acts queued).0 + 0 ≡ (live json_length acts queued).1.attempt_count)
    × ((live json_length acts queued).1.attempt_count ≤ max_mutation_attempts)
    × ((live json_length acts queued).1.request ≡ request)
live_bounded_example = live_bounded json_length acts queued (omega arith)
