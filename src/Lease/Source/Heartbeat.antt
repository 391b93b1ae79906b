-- ===== src/Lease/Source/Heartbeat.antt =====
-- What `leaseHeld` tells a worker that refreshes a source.
use arctic_rss.Prelude.{ℕ, ◌≤◌, ◌≡◌, refl, ◌∙◌, ap, Bool, true, Option, some, List, ◌++◌, All}
use arctic_rss.RowStore.{RowStore}
use arctic_rss.Lease.Time.{add_milliseconds}
use arctic_rss.Lease.Heartbeat.{Beat, heartbeats, Orderly, run_keeps_level}
use arctic_rss.Lease.Source.{
  SourceRow, SourceRefreshLease, source_refresh_lease_ms, renew_row, renew_source_refresh_lease,
  run_with_source_refresh_lease_heartbeat,
}
use arctic_rss.Lease.Source.Claim.{IsHeld}
use arctic_rss.Lease.Source.Fencing.{renew-IsLive}
use arctic_rss.Lease.Source.Statements.{renew, run_statement, run_statement_grows, generation_of}

module _ (db : RowStore SourceRow) (lease : SourceRefreshLease) where
  open db use {State, find}

  abbrev pub renewal : ℕ → State → Bool × State
  renewal now s = renew_source_refresh_lease db lease now source_refresh_lease_ms s

  abbrev pub generation : State → ℕ
  generation s = generation_of (find lease.id s)

  pub renewal_grows : (now : ℕ) (s : State) → generation s ≤ generation (renewal now s).1
  unfolding run_statement
  renewal_grows now s = run_statement_grows db (renew lease now source_refresh_lease_ms) lease.id s

  renewal_exact : (now : ℕ) (s : State) → (renewal now s).0 ≡ true → generation s ≡ lease.generation
  renewal_exact now s h =
      let (r, found, live, _) = renew-IsLive db lease now source_refresh_lease_ms s h in
      ap generation_of found ∙ live.generation

  -- Where no other client lowers the generation and the lease starts as the row's, an answer
  -- `leaseHeld: true` means that nobody took the source at any moment of the work: after every part of
  -- what happened the row had the lease's generation. The work's result is passed on, and at the end
  -- the row is under the lease, which runs on from the time of the last renewal.
  pub heartbeat_exclusive :
      {A : Type 0} (before after : List (Beat State)) (now : Option ℕ) (result : A) (s : State)
      {a : A}
      → All (Orderly renewal generation renewal_grows) (before ++ after)
      → generation s ≡ lease.generation
      → (run_with_source_refresh_lease_heartbeat db lease (before ++ after) now (some result) s).0
        ≡ some (true, a)
      → (generation (heartbeats renewal true before s).1 ≡ lease.generation)
        × (a ≡ result)
        × (t : ℕ) × (r : SourceRow) × (now ≡ some t)
        × (find lease.id
              (run_with_source_refresh_lease_heartbeat db lease
                (before ++ after)
                now
                (some result)
                s).1
            ≡ some r)
        × IsHeld (record lease { lease_expires_at = add_milliseconds t source_refresh_lease_ms }) r
  unfolding run_with_source_refresh_lease_heartbeat renew_row
  heartbeat_exclusive before after now result s gs start h =
      let (kept, same, t, u, at, renewed, left) =
        run_keeps_level renewal generation renewal_grows lease.generation before after now result s
          renewal_exact gs start h in
      let (r, found, live, row) = renew-IsLive db lease t source_refresh_lease_ms u renewed in
      (
        kept,
        same,
        t,
        renew_row (add_milliseconds t source_refresh_lease_ms) r,
        at,
        ap (find lease.id) left ∙ row,
        record { generation = live.generation; owner = live.owner; expires = refl },
      )
