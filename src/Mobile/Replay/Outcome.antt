-- ===== src/Mobile/Replay/Outcome.antt =====
-- What each operation on a queued change leaves: its request stays, it is sent at most ten times, and
-- it stays acceptable.
use arctic_rss.Prelude.{
  ℕ, ◌+◌, ◌≤◌, ◌<◌, ◌≡◌, ◌≢◌, inl, inr, ap, Bool, true, false, some, leb, Text, arith, Bool-cases,
  leb→le,
}
use arctic_rss.Mobile.Mutation.{
  PendingMutation, QueuedMutation, MutationState, Attempt, returns, max_mutation_attempts, code_ok,
}
use arctic_rss.Mobile.Replay.{
  Failure, failure_state, is_replayable_mutation, retry_limit_reached, fail_pending_mutation,
  start_pending_mutation, complete_pending_mutation, retry_pending_mutation, state_terminal,
  state_replayable,
}
use arctic_rss.Mobile.Replay.Validity.{
  IsAcceptable, change-IsAcceptable, IsAcceptable-Parts, and_left,
}

-- The operations on one queued change.
pub data Act : Type 0 where
  start complete retry : ℕ → Act
  fail : Text → Failure → ℕ → Act

abbrev time_of : Act → ℕ
time_of (start now) = now
time_of (complete now) = now
time_of (retry now) = now
time_of (fail _ _ now) = now

-- What identifies a change and its request.
pub record SameChange (m m' : PendingMutation) : Type 0 where
  pub request : m'.request ≡ m.request
  pub id : m'.id ≡ m.id
  pub owner : m'.owner_user_id ≡ m.owner_user_id
  pub device : m'.mobile_device_id ≡ m.mobile_device_id
  pub resource : m'.resource_id ≡ m.resource_id
  pub operation : m'.operation ≡ m.operation

abbrev pub is_sending : MutationState → Bool
is_sending MutationState.sending = true
is_sending _ = false

-- How the state and the counter move: a change that waits is sent, and counted, below the limit, and
-- gives up at it; a failure or a completion can follow any state; a manual retry follows a failure.
pub data Moves (m m' : PendingMutation) : Act → Type 0 where
  sent :
      (now : ℕ)
      → state_replayable m.state ≡ true
      → m.attempt_count < max_mutation_attempts
      → m'.attempt_count ≡ m.attempt_count + 1
      → m'.state ≡ MutationState.sending
      → Moves m m' (start now)
  exhausted :
      (now : ℕ)
      → state_replayable m.state ≡ true
      → max_mutation_attempts ≤ m.attempt_count
      → m'.attempt_count ≡ m.attempt_count
      → m'.state ≡ MutationState.permanent_failure
      → m'.last_error_code ≡ some retry_limit_reached
      → Moves m m' (start now)
  finished :
      (now : ℕ)
      → m'.attempt_count ≡ m.attempt_count
      → m'.state ≡ MutationState.completed
      → Moves m m' (complete now)
  broken :
      (code : Text) (f : Failure) (now : ℕ)
      → m'.attempt_count ≡ m.attempt_count
      → m'.state ≡ failure_state f
      → m'.last_error_code ≡ some code
      → Moves m m' (fail code f now)
  renewed :
      (now : ℕ)
      → state_terminal m.state ≡ true
      → m'.attempt_count ≡ m.attempt_count
      → m'.state ≡ MutationState.pending
      → Moves m m' (retry now)

attempts_bounded :
    {m m' : PendingMutation} {a : Act}
    → Moves m m' a
    → m.attempt_count ≤ max_mutation_attempts
    → m'.attempt_count ≤ max_mutation_attempts
attempts_bounded (sent _ _ below same _) le = omega arith
attempts_bounded (exhausted _ _ _ same _ _) le = omega arith
attempts_bounded (finished _ same _) le = omega arith
attempts_bounded (broken _ _ _ same _ _) le = omega arith
attempts_bounded (renewed _ _ same _) le = omega arith

module _ (json_length : PendingMutation → ℕ) where
  unfoldable pub act : Act → PendingMutation → Attempt PendingMutation
  act (start now) m = start_pending_mutation json_length m now
  act (complete now) m = complete_pending_mutation json_length m now
  act (retry now) m = retry_pending_mutation json_length m now
  act (fail code f now) m = fail_pending_mutation json_length m code f now

  pub act-SameChange :
      (a : Act) (m : PendingMutation) {m' : PendingMutation}
      → act a m ≡ returns m'
      → SameChange m m'
  unfolding act start_pending_mutation complete_pending_mutation retry_pending_mutation
      fail_pending_mutation
  act-SameChange (start now) m h = ground arith
  act-SameChange (complete now) m h = ground arith
  act-SameChange (retry now) m h = ground arith
  act-SameChange (fail code f now) m h = ground arith

  start-Moves :
      (now : ℕ) (m : PendingMutation) {m' : PendingMutation}
      → act (start now) m ≡ returns m'
      → Moves m m' (start now)
  unfolding act start_pending_mutation fail_pending_mutation is_replayable_mutation
  start-Moves now m h = elim (Bool-cases (leb max_mutation_attempts m.attempt_count)) [
    | inl top ↦
        exhausted now (ground arith) (ground arith) (ground arith) (ground arith) (ground arith)
    | inr below ↦ sent now (ground arith) (ground arith) (ground arith) (ground arith)
  ]

  -- Every operation that does not throw moves a change along its life.
  pub act-Moves :
      (a : Act) (m : PendingMutation) {m' : PendingMutation} → act a m ≡ returns m' → Moves m m' a
  unfolding act complete_pending_mutation retry_pending_mutation fail_pending_mutation
  act-Moves (start now) m h = start-Moves now m h
  act-Moves (complete now) m h = finished now (ground arith) (ground arith)
  act-Moves (retry now) m h = renewed now (ground arith) (ground arith) (ground arith)
  act-Moves (fail code f now) m h = broken code f now (ground arith) (ground arith) (ground arith)

  act-updated_at :
      (a : Act) (m : PendingMutation) {m' : PendingMutation}
      → act a m ≡ returns m'
      → (m'.updated_at ≡ time_of a) × IsAcceptable json_length m
  unfolding act start_pending_mutation complete_pending_mutation retry_pending_mutation
      fail_pending_mutation
  act-updated_at (start now) m h = (ground arith, ground arith)
  act-updated_at (complete now) m h = (ground arith, ground arith)
  act-updated_at (retry now) m h = (ground arith, ground arith)
  act-updated_at (fail code f now) m h = (ground arith, ground arith)

  act-code_ok :
      (a : Act) (m : PendingMutation) {m' : PendingMutation}
      → act a m ≡ returns m'
      → code_ok m.last_error_code ≡ true
      → code_ok m'.last_error_code ≡ true
  unfolding act start_pending_mutation complete_pending_mutation retry_pending_mutation
      fail_pending_mutation
  act-code_ok (start now) m h c = ground arith
  act-code_ok (complete now) m h c = ground arith
  act-code_ok (retry now) m h c = ground arith
  act-code_ok (fail code f now) m h c = ground arith

  -- An operation at a time that is not before the creation leaves an acceptable change, if its JSON
  -- text stays small.
  pub act-IsAcceptable :
      (a : Act) (m : PendingMutation) {m' : PendingMutation}
      → act a m ≡ returns m'
      → m.request.created_at ≤ time_of a
      → json_length m' ≤ 10000
      → IsAcceptable json_length m'
  act-IsAcceptable a m {m'} h late small =
      let same = act-SameChange a m h in
      let (updated, old) = act-updated_at a m h in
      let parts = IsAcceptable-Parts json_length m old in
      change-IsAcceptable json_length m m' old same.request same.id same.owner same.device
        same.resource same.operation
        (attempts_bounded (act-Moves a m h) (leb→le _ _ parts.attempts)) (omega (arith, updated))
        (act-code_ok a m h (and_left _ _ parts.retried)) small

  -- An operation at a time before the creation, by a clock that was set back, leaves a change, where it
  -- does not throw, on which every later operation throws.
  pub act_backdated :
      (a : Act) (m : PendingMutation) {m' : PendingMutation}
      → act a m ≡ returns m'
      → time_of a < m.request.created_at
      → (b : Act) (next : PendingMutation) → act b m' ≢ returns next
  act_backdated a m {m'} h early b next k =
      let same = act-SameChange a m h in
      let (updated, _) = act-updated_at a m h in
      let parts = IsAcceptable-Parts json_length m' (act-updated_at b m' k).1 in
      let late = leb→le _ _ parts.updated in
      absurd (omega (arith, late, updated, ap (λ (q : QueuedMutation). q.created_at) same.request))
