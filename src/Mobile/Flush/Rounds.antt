-- ===== src/Mobile/Flush/Rounds.antt =====
-- Each round of the loop that goes on settles a change.
use arctic_rss.Prelude.{
  ℕ, ◌≤◌, ◌<◌, ◌≡◌, refl, Bool, true, false, Option, none, some, List, ◌||◌, ◌==◌, branch, Text,
  codes, text_eq, arith,
}
use arctic_rss.Mobile.Mutation.{PendingMutation, MutationOwner, Attempt, returns, throws}
use arctic_rss.Mobile.Replay.{Failure, failure_state}
use arctic_rss.Mobile.Replay.Outcome.{Act, act, fail, complete, Moves}
use arctic_rss.Mobile.Queue.{
  Row, key_of, complete_queued, fail_queued, next_replayable_mutation, update_pending_mutation,
}
use arctic_rss.Mobile.Queue.Updates.{update_pending_mutation-Updated}
use arctic_rss.Mobile.Flush.{
  RequestError, network, api, other, Round, FlushError, store, request, Turn, stopped, thrown,
  completed_one, conflict_one, failed_one, fail_and, catch_error, replay, flush_round,
}
use arctic_rss.Mobile.Flush.Unsettled.{
  state_unsettled, unsettled_count, has_unsettled, unsettled_count-write,
}
use arctic_rss.Mobile.Flush.Recovery.{next_replayable-unsettled}

-- A round after which the loop goes on has left fewer changes that may still be sent.
pub data Lowers (n : ℕ) : Turn → Type 0 where
  ends : {rows : List Row} → Lowers n (stopped rows)
  throws_out : {e : FlushError} {rows : List Row} → Lowers n (thrown e rows)
  one_completed : {rows : List Row} → unsettled_count rows < n → Lowers n (completed_one rows)
  one_conflict : {rows : List Row} → unsettled_count rows < n → Lowers n (conflict_one rows)
  one_failed : {rows : List Row} → unsettled_count rows < n → Lowers n (failed_one rows)

fails_settled :
    {b m : PendingMutation} {code : Text} {f : Failure} {now : ℕ}
    → Moves b m (fail code f now)
    → state_unsettled (failure_state f) ≡ false
    → state_unsettled m.state ≡ false
fails_settled (Moves.broken _ _ _ _ state _) settled = rw state settled

completes_settled :
    {b m : PendingMutation} {now : ℕ} → Moves b m (complete now) → state_unsettled m.state ≡ false
completes_settled (Moves.finished _ _ state) = rw state refl

module _ (json_length : PendingMutation → ℕ) (owner : MutationOwner) where
  updated_lower :
      (owner_matches : Bool) (key : Text) (a : Act) (rows written : List Row) (m : PendingMutation)
      → has_unsettled key rows ≡ true
      → update_pending_mutation json_length owner_matches owner key (act json_length a) rows
        ≡ returns (written, m)
      → state_unsettled m.state ≡ false
      → unsettled_count written < unsettled_count rows
  updated_lower owner_matches key a rows written m there h settled =
      let u =
        update_pending_mutation-Updated json_length owner_matches owner key a rows written m h in
      let stands : has_unsettled (key_of m) rows ≡ true = rw u.1.keyed there in
      let wrote = unsettled_count-write m rows stands in
      rw u.1.stored (ground (arith, wrote, settled))

  failed_lower :
      (r : Round) (key code : Text) (f : Failure) (rows written : List Row) (m : PendingMutation)
      → has_unsettled key rows ≡ true
      → fail_queued json_length r.fail_owner owner key code f r.fail_time rows
        ≡ returns (written, m)
      → state_unsettled (failure_state f) ≡ false
      → unsettled_count written < unsettled_count rows
  unfolding fail_queued act
  failed_lower r key code f rows written m there h settled =
      let u =
        update_pending_mutation-Updated json_length r.fail_owner owner key (fail code f r.fail_time)
          rows written m h in
      updated_lower r.fail_owner key (fail code f r.fail_time) rows written m there h
        (fails_settled u.1.moved settled)

  fail_and-Lowers :
      (r : Round) (key code : Text) (f : Failure) (rows : List Row) (next : List Row → Turn)
      → has_unsettled key rows ≡ true
      → ((written : List Row)
          → (state_unsettled (failure_state f) ≡ false
              → unsettled_count written < unsettled_count rows)
          → Lowers (unsettled_count rows) (next written))
      → Lowers (unsettled_count rows) (fail_and json_length owner r key code f rows next)
  unfolding fail_and
  fail_and-Lowers r key code f rows next there lowers =
      go (fail_queued json_length r.fail_owner owner key code f r.fail_time rows) refl
    where
      go :
          (a : Attempt (List Row × PendingMutation))
          → fail_queued json_length r.fail_owner owner key code f r.fail_time rows ≡ a
          → Lowers (unsettled_count rows) (elim a as (λ x. Turn) [
            | throws e ↦ thrown (store e) rows
            | returns (written, m) ↦ next written
          ])
      go (throws e) h = throws_out
      go (returns (written, m)) h =
          lowers written (λ settled. failed_lower r key code f rows written m there h settled)

  catch_error-Lowers :
      (r : Round) (key : Text) (e : RequestError) (rows : List Row)
      → has_unsettled key rows ≡ true
      → Lowers (unsettled_count rows) (catch_error json_length owner r key e rows)
  unfolding catch_error
  catch_error-Lowers r key (network false) rows there = throws_out
  catch_error-Lowers r key (network true) rows there =
      fail_and-Lowers r key (codes "NETWORK_UNAVAILABLE") Failure.retryable_failure rows stopped
        there (λ _ _. ends)
  catch_error-Lowers r key (api code true status) rows there =
      fail_and-Lowers r key code Failure.retryable_failure rows stopped there (λ _ _. ends)
  catch_error-Lowers r key (api code false status) rows there =
      branch (Lowers (unsettled_count rows)) (status == 401)
        (λ _.
          fail_and-Lowers r key code Failure.permanent_failure rows
            (thrown (request (api code false status))) there (λ _ _. throws_out))
        (λ _.
          branch (Lowers (unsettled_count rows))
            (status == 404 || text_eq code (codes "IDEMPOTENCY_KEY_REUSED"))
            (λ _.
              fail_and-Lowers r key code Failure.conflict rows conflict_one there
                (λ _ l. one_conflict (l refl)))
            (λ _.
              fail_and-Lowers r key code Failure.permanent_failure rows failed_one there
                (λ _ l. one_failed (l refl))))
  catch_error-Lowers r key other rows there =
      fail_and-Lowers r key (codes "UNKNOWN_REPLAY_FAILURE") Failure.permanent_failure rows
        failed_one there (λ _ l. one_failed (l refl))

  completed_lower :
      (r : Round) (key : Text) (rows written : List Row) (m : PendingMutation)
      → has_unsettled key rows ≡ true
      → complete_queued json_length r.complete_owner owner key r.complete_time rows
        ≡ returns (written, m)
      → unsettled_count written < unsettled_count rows
  unfolding complete_queued act
  completed_lower r key rows written m there h =
      let u =
        update_pending_mutation-Updated json_length r.complete_owner owner key
          (complete r.complete_time) rows written m h in
      updated_lower r.complete_owner key (complete r.complete_time) rows written m there h
        (completes_settled u.1.moved)

  replay-Lowers :
      (r : Round) (key : Text) (answer : Option RequestError) (rows : List Row)
      → has_unsettled key rows ≡ true
      → Lowers (unsettled_count rows) (replay json_length owner r key answer rows)
  unfolding replay
  replay-Lowers r key (some e) rows there = catch_error-Lowers r key e rows there
  replay-Lowers r key none rows there =
      go (complete_queued json_length r.complete_owner owner key r.complete_time rows) refl
    where
      go :
          (a : Attempt (List Row × PendingMutation))
          → complete_queued json_length r.complete_owner owner key r.complete_time rows ≡ a
          → Lowers (unsettled_count rows) (elim a as (λ x. Turn) [
            | throws e ↦ catch_error json_length owner r key other rows
            | returns (written, m) ↦ completed_one written
          ])
      go (throws e) h = catch_error-Lowers r key other rows there
      go (returns (written, m)) h = one_completed (completed_lower r key rows written m there h)

  Lowers-more : {n m : ℕ} {t : Turn} → Lowers n t → n ≤ m → Lowers m t
  Lowers-more ends le = ends
  Lowers-more throws_out le = throws_out
  Lowers-more (one_completed less) le = one_completed (omega (arith, less, le))
  Lowers-more (one_conflict less) le = one_conflict (omega (arith, less, le))
  Lowers-more (one_failed less) le = one_failed (omega (arith, less, le))

  pub flush_round-Lowers :
      (r : Round) (rows : List Row)
      → Lowers (unsettled_count rows) (flush_round json_length owner r rows)
  unfolding flush_round
  flush_round-Lowers r rows =
      go (next_replayable_mutation json_length r.next_owner r.next_time rows) refl
    where
      go :
          (a : Attempt (List Row × Option PendingMutation))
          → next_replayable_mutation json_length r.next_owner r.next_time rows ≡ a
          → Lowers (unsettled_count rows) (elim a as (λ x. Turn) [
            | throws e ↦ thrown (store e) rows
            | returns (written, none) ↦ stopped written
            | returns (written, some m) ↦ replay json_length owner r (key_of m) r.answer written
          ])
      go (throws e) h = throws_out
      go (returns (written, none)) h = ends
      go (returns (written, some m)) h =
          let (there, fewer) =
            next_replayable-unsettled json_length r.next_owner r.next_time rows written m h in
          Lowers-more (replay-Lowers r (key_of m) r.answer written there) fewer
