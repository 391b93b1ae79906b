-- ===== src/Mobile/Replay/Lives.antt =====
-- A queued change over its whole life: how often it is sent, and what a manual retry can do.
use arctic_rss.Prelude.{ℕ, ◌+◌, ◌≤◌, ◌≡◌, refl, ◌∙◌, Bool, true, false, List, [], ◌∷◌, arith}
use arctic_rss.Mobile.Mutation.{
  PendingMutation, MutationState, Attempt, returns, throws, max_mutation_attempts,
}
use arctic_rss.Mobile.Replay.Outcome.{
  Act, start, retry, Moves, sent, exhausted, finished, broken, renewed, act, act-Moves,
  act-SameChange, is_sending,
}

abbrev is_start : Act → Bool
is_start (start now) = true
is_start _ = false

-- 1 where the operation sends the change: a start that leaves it `SENDING`.
abbrev pub sends : Act → Attempt PendingMutation → ℕ
sends (start now) (returns m) = elim (is_sending m.state) [ true ↦ 1 | false ↦ 0 ]
sends _ _ = 0

-- An operation that throws leaves the change as it is.
abbrev pub after : Attempt PendingMutation → PendingMutation → PendingMutation
after (returns m') m = m'
after (throws e) m = m

start_at_limit :
    {m m' : PendingMutation} {now : ℕ}
    → Moves m m' (start now)
    → m.attempt_count ≡ max_mutation_attempts
    → m'.state ≡ MutationState.permanent_failure
start_at_limit (sent _ _ below _ _) top = absurd (omega arith)
start_at_limit (exhausted _ _ _ _ state _) top = state

retry_counts :
    {m m' : PendingMutation} {now : ℕ} → Moves m m' (retry now) → m'.attempt_count ≡ m.attempt_count
retry_counts (renewed _ _ same _) = same

module _ (json_length : PendingMutation → ℕ) where
  -- The number of times that the change is sent, and the change at the end.
  pub live : List Act → PendingMutation → ℕ × PendingMutation
  live [] m = (0, m)
  live (a ∷ acts) m =
      let r = act json_length a m in let (n, end) = live acts (after r m) in (sends a r + n, end)

  sends-Moves :
      {a : Act} {m m' : PendingMutation}
      → Moves m m' a
      → m.attempt_count ≤ max_mutation_attempts
      → (sends a (returns m') + m.attempt_count ≡ m'.attempt_count)
        × (m'.attempt_count ≤ max_mutation_attempts)
  sends-Moves (sent now _ below up s) le = (ground arith, omega arith)
  sends-Moves (exhausted now _ _ same s _) le = (ground arith, omega arith)
  sends-Moves (finished now same _) le = (omega arith, omega arith)
  sends-Moves (broken code f now same _ _) le = (omega arith, omega arith)
  sends-Moves (renewed now _ same _) le = (omega arith, omega arith)

  step_counts :
      (a : Act) (m : PendingMutation) (r : Attempt PendingMutation)
      → act json_length a m ≡ r
      → m.attempt_count ≤ max_mutation_attempts
      → (sends a r + m.attempt_count ≡ (after r m).attempt_count)
        × ((after r m).attempt_count ≤ max_mutation_attempts)
        × ((after r m).request ≡ m.request)
  step_counts a m (returns m') e le =
      let (count, bound) = sends-Moves (act-Moves json_length a m e) le in
      (count, bound, (act-SameChange json_length a m e).request)
  step_counts (start now) m (throws x) e le = (omega arith, le, refl)
  step_counts _ m (throws x) e le = (omega arith, le, refl)

  -- Whatever is done with a change of at most ten attempts, in any order and at any times, manual retries included: each time
  -- that it is sent is counted, and it is sent at most ten times; its request stays what it was.
  pub live_bounded :
      (acts : List Act) (m : PendingMutation)
      → m.attempt_count ≤ max_mutation_attempts
      → ((live acts m).0 + m.attempt_count ≡ (live acts m).1.attempt_count)
        × ((live acts m).1.attempt_count ≤ max_mutation_attempts)
        × ((live acts m).1.request ≡ m.request)
  unfolding live
  live_bounded [] m le = (omega arith, le, refl)
  live_bounded (a ∷ acts) m le =
      let r = act json_length a m in
      let (count, bound, request) = step_counts a m r refl le in
      let (count', bound', request') = live_bounded acts (after r m) bound in
      (omega (arith, count, count'), bound', request' ∙ request)

  -- A manual retry of a change that has been sent ten times does not get it sent: if neither the retry
  -- nor the next start throws, that start ends the change.
  pub retry_exhausted_futile :
      (t u : ℕ) (m m1 m2 : PendingMutation)
      → m.attempt_count ≡ max_mutation_attempts
      → act json_length (retry t) m ≡ returns m1
      → act json_length (start u) m1 ≡ returns m2
      → m2.state ≡ MutationState.permanent_failure
  retry_exhausted_futile t u m m1 m2 top h k =
      start_at_limit (act-Moves json_length (start u) m1 k)
        (retry_counts (act-Moves json_length (retry t) m h) ∙ top)
