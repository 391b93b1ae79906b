-- ===== src/Mobile/Replay.antt =====
-- The life of a queued change (startPendingMobileMutation and the functions after it in
-- packages/mobile-client/src/offline.ts). A function that throws returns an error.
pub mod Delay
pub mod Outcome
pub mod Lives
pub mod Validity
mod Tests
use Prim.Native.Nat.{min}
use arctic_rss.Prelude.{
  ℕ, ◌+◌, ◌-◌, ◌*◌, ◌^◌, Bool, true, false, Option, none, some, List, [], ◌∷◌, ◌&&◌, ◌||◌, not, ltb,
  leb, ◌==◌, if◌then◌else◌, length, Text, codes,
}
use arctic_rss.Mobile.Mutation.{
  PendingMutation, MutationState, Error, not_ready, unbounded_code, not_terminal, Attempt, returns,
  throws, ◌>>=◌, ◌>>◌, require, assert_pending_mutation, max_mutation_attempts,
  max_error_code_length, is_empty,
}

abbrev retry_backoff_base_ms : ℕ
retry_backoff_base_ms = 5000

abbrev retry_backoff_max_ms : ℕ
retry_backoff_max_ms = 60 * 60000

-- `Math.max(0, Math.min(10, attemptCount - 1))`; subtraction stops at 0 here, as the maximum does.
pub mobile_mutation_retry_delay_ms : ℕ → ℕ
mobile_mutation_retry_delay_ms attempt_count =
    let exponent = min 10 (attempt_count - 1) in
    min retry_backoff_max_ms (retry_backoff_base_ms * 2 ^ exponent)

-- The states that a failure may lead to.
pub data Failure : Type 0 where
  conflict permanent_failure retryable_failure : Failure

abbrev pub failure_state : Failure → MutationState
failure_state Failure.conflict = MutationState.conflict
failure_state Failure.permanent_failure = MutationState.permanent_failure
failure_state Failure.retryable_failure = MutationState.retryable_failure

next_attempt : Failure → ℕ → ℕ → Option ℕ
next_attempt Failure.retryable_failure updated_at attempt_count =
    some (updated_at + mobile_mutation_retry_delay_ms attempt_count)
next_attempt _ updated_at attempt_count = none

unfoldable pub state_replayable : MutationState → Bool
state_replayable MutationState.pending = true
state_replayable MutationState.retryable_failure = true
state_replayable _ = false

abbrev pub due : Option ℕ → ℕ → Bool
due none now = true
due (some t) now = leb t now

unfoldable pub is_replayable_mutation : PendingMutation → ℕ → Bool
unfolding state_replayable
is_replayable_mutation m now = state_replayable m.state && due m.next_attempt_at now

pub state_terminal : MutationState → Bool
state_terminal MutationState.conflict = true
state_terminal MutationState.permanent_failure = true
state_terminal _ = false

abbrev pub retry_limit_reached : Text
retry_limit_reached = codes "RETRY_LIMIT_REACHED"

pub failed : Text → Failure → ℕ → PendingMutation → PendingMutation
unfolding next_attempt
failed code state updated_at m = record m {
  last_error_code = some code;
  next_attempt_at = next_attempt state updated_at m.attempt_count;
  state = failure_state state;
  updated_at = updated_at;
}

pub started : ℕ → PendingMutation → PendingMutation
started now m = record m {
  attempt_count = m.attempt_count + 1;
  last_attempt_at = some now;
  next_attempt_at = none;
  state = MutationState.sending;
  updated_at = now;
}

pub settled : MutationState → ℕ → PendingMutation → PendingMutation
settled state now m = record m { next_attempt_at = none; state = state; updated_at = now }

module _ (json_length : PendingMutation → ℕ) where
  unfoldable pub fail_pending_mutation :
      PendingMutation → Text → Failure → ℕ → Attempt PendingMutation
  unfolding failed
  fail_pending_mutation m code state updated_at = do
    assert_pending_mutation json_length m
    require (not (is_empty code) && leb (length code) max_error_code_length) unbounded_code
    returns (failed code state updated_at m)

  unfoldable pub start_pending_mutation : PendingMutation → ℕ → Attempt PendingMutation
  unfolding started
  start_pending_mutation m now = do
    assert_pending_mutation json_length m
    require (is_replayable_mutation m now) not_ready
    (if leb max_mutation_attempts m.attempt_count
        then fail_pending_mutation m retry_limit_reached Failure.permanent_failure now
        else returns (started now m))

  unfoldable pub complete_pending_mutation : PendingMutation → ℕ → Attempt PendingMutation
  unfolding settled
  complete_pending_mutation m now = do
    assert_pending_mutation json_length m
    returns (settled MutationState.completed now m)

  unfoldable pub retry_pending_mutation : PendingMutation → ℕ → Attempt PendingMutation
  unfolding settled state_terminal
  retry_pending_mutation m now = do
    assert_pending_mutation json_length m
    require (state_terminal m.state) not_terminal
    returns (settled MutationState.pending now m)
