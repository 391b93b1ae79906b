-- ===== src/Mobile/Flush/Termination.antt =====
-- The loop ends.
use arctic_rss.Prelude.{ℕ, zero, suc, ◌+◌, ◌≤◌, ◌<◌, List, length, length-keep, arith}
use arctic_rss.Mobile.Mutation.{PendingMutation, MutationOwner}
use arctic_rss.Mobile.Queue.{Row}
use arctic_rss.Mobile.Flush.{
  Round, FlushError, Turn, stopped, thrown, completed_one, conflict_one, failed_one, Flushed, done,
  broken, flush_round, flush_pending_mutations,
}
use arctic_rss.Mobile.Flush.Unsettled.{is_unsettled, unsettled_count}
use arctic_rss.Mobile.Flush.Rounds.{
  Lowers, ends, flush_round-Lowers, one_completed, one_conflict, one_failed, throws_out,
}

-- The loop has returned, with at most n changes counted, or thrown.
pub data Ends (n : ℕ) : Flushed → Type 0 where
  returned :
      {rows : List Row} {completed conflicts : ℕ}
      → completed + conflicts ≤ n
      → Ends n (done rows completed conflicts)
  threw : {e : FlushError} {rows : List Row} → Ends n (broken e rows)

module _ (json_length : PendingMutation → ℕ) (owner : MutationOwner) where
  turn-Ends :
      (fuel : ℕ) (rounds : ℕ → Round) (i n completed conflicts bound : ℕ) (t : Turn)
      → Lowers n t
      → n ≤ fuel
      → completed + conflicts + n ≤ bound
      → ((rows : List Row) (completed conflicts : ℕ)
          → unsettled_count rows < fuel
          → completed + conflicts + unsettled_count rows ≤ bound
          → Ends bound (
              flush_pending_mutations json_length owner fuel rounds
                (i + 1)
                rows
                completed
                conflicts))
      → Ends bound (elim t as (λ x. Flushed) [
        | stopped rows ↦ done rows completed conflicts
        | thrown e rows ↦ broken e rows
        | completed_one rows ↦
            flush_pending_mutations json_length owner fuel rounds
              (i + 1)
              rows
              (completed + 1)
              conflicts
        | conflict_one rows ↦
            flush_pending_mutations json_length owner fuel rounds
              (i + 1)
              rows
              completed
              (conflicts + 1)
        | failed_one rows ↦
            flush_pending_mutations json_length owner fuel rounds (i + 1) rows completed conflicts
      ])
  turn-Ends fuel rounds i n completed conflicts bound _ ends l k later = returned (omega (arith, k))
  turn-Ends fuel rounds i n completed conflicts bound _ throws_out l k later = threw
  turn-Ends fuel rounds i n completed conflicts bound _ (one_completed {rows = rows} less) l k
        later =
      later rows (completed + 1) conflicts (omega (arith, less, l)) (omega (arith, less, k))
  turn-Ends fuel rounds i n completed conflicts bound _ (one_conflict {rows = rows} less) l k
        later =
      later rows completed (conflicts + 1) (omega (arith, less, l)) (omega (arith, less, k))
  turn-Ends fuel rounds i n completed conflicts bound _ (one_failed {rows = rows} less) l k later =
      later rows completed conflicts (omega (arith, less, l)) (omega (arith, less, k))

  flush-Ends :
      (fuel : ℕ) (rounds : ℕ → Round) (i : ℕ) (rows : List Row) (completed conflicts bound : ℕ)
      → unsettled_count rows < fuel
      → completed + conflicts + unsettled_count rows ≤ bound
      → Ends bound
          (flush_pending_mutations json_length owner fuel rounds i rows completed conflicts)
  unfolding flush_pending_mutations
  flush-Ends zero rounds i rows completed conflicts bound l k = absurd (omega (arith, l))
  flush-Ends (suc fuel) rounds i rows completed conflicts bound l k =
      turn-Ends fuel rounds i (unsettled_count rows) completed conflicts bound
        (flush_round json_length owner (rounds i) rows)
        (flush_round-Lowers json_length owner (rounds i) rows) (omega (arith, l)) k
        (λ rows' completed' conflicts'.
          flush-Ends fuel rounds (i + 1) rows' completed' conflicts' bound)

  -- Whatever the server answers and the clock says in each round, the loop ends: if the fuel is more
  -- than the number of rows, then it returns, with at most as many changes counted as completed or in
  -- conflict as there are rows, or throws.
  pub flush_pending_mutations-Ends :
      (fuel : ℕ) (rounds : ℕ → Round) (rows : List Row)
      → length rows < fuel
      → Ends (length rows) (flush_pending_mutations json_length owner fuel rounds 0 rows 0 0)
  flush_pending_mutations-Ends fuel rounds rows l =
      let few = length-keep is_unsettled rows in
      flush-Ends fuel rounds 0 rows 0 0 (length rows) (omega (arith, few, l)) (omega (arith, few))
