-- ===== src/Mobile/Flush.antt =====
-- The loop that sends the queued changes (apps/mobile/src/sync/flush-pending-mutations.ts). What the
-- server answers, what the clock says and whether the owner record matches are arguments, for each
-- round of the loop; nobody else changes the table meanwhile.
pub mod Unsettled
pub mod Recovers
pub mod Recovery
pub mod Rounds
pub mod Termination
mod Tests
use arctic_rss.Prelude.{
  ℕ, zero, suc, ◌+◌, Bool, true, false, Option, none, some, List, ◌||◌, ◌==◌, if◌then◌else◌, Text,
  codes, text_eq,
}
use arctic_rss.Mobile.Mutation.{PendingMutation, MutationOwner, Error, Attempt, returns, throws}
use arctic_rss.Mobile.Replay.{Failure}
use arctic_rss.Mobile.Queue.{Row, key_of, next_replayable_mutation, complete_queued, fail_queued}

-- What `replayMutation` throws: a `MobileNetworkError`, by whether it is retryable, a
-- `MobileApiError`, by its code, whether it is retryable and its status, or something else.
pub data RequestError : Type 0 where
  network : Bool → RequestError
  api : Text → Bool → ℕ → RequestError
  other : RequestError

-- One round: for each of its three transactions whether the owner record matches and when it runs,
-- and the answer of the server.
pub record Round : Type 0 where
  pub next_owner : Bool
  pub next_time : ℕ
  pub answer : Option RequestError
  pub complete_owner : Bool
  pub complete_time : ℕ
  pub fail_owner : Bool
  pub fail_time : ℕ

pub data FlushError : Type 0 where
  store : Error → FlushError
  request : RequestError → FlushError

-- How a round ends: the loop returns, throws, or goes on, with one more change completed, in conflict
-- or failed.
pub data Turn : Type 0 where
  stopped : List Row → Turn
  thrown : FlushError → List Row → Turn
  completed_one conflict_one failed_one : List Row → Turn

pub data Flushed : Type 0 where
  done : List Row → ℕ → ℕ → Flushed
  broken : FlushError → List Row → Flushed
  unfinished : Flushed

module _ (json_length : PendingMutation → ℕ) (owner : MutationOwner) where
  -- `failPendingMutation`, and what is done with the table then.
  unfoldable pub fail_and : Round → Text → Text → Failure → List Row → (List Row → Turn) → Turn
  fail_and r key code state rows next =
      elim (fail_queued json_length r.fail_owner owner key code state r.fail_time rows) [
        | throws e ↦ thrown (store e) rows
        | returns (written, m) ↦ next written
      ]

  -- The `catch` block.
  unfoldable pub catch_error : Round → Text → RequestError → List Row → Turn
  unfolding fail_and
  catch_error r key (network false) rows = thrown (request (network false)) rows
  catch_error r key (network true) rows =
      fail_and r key (codes "NETWORK_UNAVAILABLE") Failure.retryable_failure rows stopped
  catch_error r key (api code true status) rows =
      fail_and r key code Failure.retryable_failure rows stopped
  catch_error r key (api code false status) rows =
      if status == 401
      then fail_and r key code Failure.permanent_failure rows
          (thrown (request (api code false status)))
      else if status == 404 || text_eq code (codes "IDEMPOTENCY_KEY_REUSED")
      then fail_and r key code Failure.conflict rows conflict_one
      else fail_and r key code Failure.permanent_failure rows failed_one
  catch_error r key other rows =
      fail_and r key (codes "UNKNOWN_REPLAY_FAILURE") Failure.permanent_failure rows failed_one

  -- The `try` block, whose errors the `catch` block gets, the completion's among them.
  unfoldable pub replay : Round → Text → Option RequestError → List Row → Turn
  unfolding catch_error
  replay r key (some e) rows = catch_error r key e rows
  replay r key none rows =
      elim (complete_queued json_length r.complete_owner owner key r.complete_time rows) [
        | throws e ↦ catch_error r key other rows
        | returns (written, m) ↦ completed_one written
      ]

  unfoldable pub flush_round : Round → List Row → Turn
  unfolding replay
  flush_round r rows = elim (next_replayable_mutation json_length r.next_owner r.next_time rows) [
    | throws e ↦ thrown (store e) rows
    | returns (written, none) ↦ stopped written
    | returns (written, some m) ↦ replay r (key_of m) r.answer written
  ]

  -- The loop from its i-th round on.
  unfoldable pub flush_pending_mutations : ℕ → (ℕ → Round) → ℕ → List Row → ℕ → ℕ → Flushed
  flush_pending_mutations zero rounds i rows completed conflicts = unfinished
  flush_pending_mutations (suc fuel) rounds i rows completed conflicts =
      elim (flush_round (rounds i) rows) [
        | stopped written ↦ done written completed conflicts
        | thrown e written ↦ broken e written
        | completed_one written ↦
            flush_pending_mutations fuel rounds (i + 1) written (completed + 1) conflicts
        | conflict_one written ↦
            flush_pending_mutations fuel rounds (i + 1) written completed (conflicts + 1)
        | failed_one written ↦
            flush_pending_mutations fuel rounds (i + 1) written completed conflicts
      ]
