-- ===== src/Lease/Digest/Heartbeat.antt =====
-- What `leaseHeld` tells a worker that writes a Smart Digest.
use arctic_rss.Prelude.{ℕ, ◌≤◌, ◌≡◌, refl, ◌∙◌, ap, Bool, true, Option, some, List, ◌++◌, All}
use arctic_rss.RowStore.{RowStore}
use arctic_rss.RowStore.Monotone.{level}
use arctic_rss.Lease.Time.{add_milliseconds}
use arctic_rss.Lease.Heartbeat.{Beat, heartbeats, Orderly, run_keeps_level}
use arctic_rss.Lease.Digest.{
  RunRow, processing, SmartDigestRunLease, smart_digest_processing_lease_ms, renew_row,
  renew_smart_digest_run_lease, run_with_smart_digest_run_lease_heartbeat,
}
use arctic_rss.Lease.Digest.Fencing.{
  attempt_of, renew, run_statement, run_statement_grows, renew_exact,
}

module _ (db : RowStore RunRow) (lease : SmartDigestRunLease) where
  open db use {State, find}

  abbrev pub renewal : ℕ → State → Bool × State
  renewal now s = renew_smart_digest_run_lease db lease now smart_digest_processing_lease_ms s

  abbrev pub attempt : State → ℕ
  attempt s = level attempt_of (find lease.id s)

  pub renewal_grows : (now : ℕ) (s : State) → attempt s ≤ attempt (renewal now s).1
  unfolding run_statement
  renewal_grows now s =
      run_statement_grows db (renew lease now smart_digest_processing_lease_ms) lease.id s

  renewal_exact : (now : ℕ) (s : State) → (renewal now s).0 ≡ true → attempt s ≡ lease.attempt
  renewal_exact now s h =
      let (r, found, same, _, _) = renew_exact db lease now smart_digest_processing_lease_ms s h in
      ap (level attempt_of) found ∙ same

  -- Where no other client lowers the attempt number and the lease starts as the row's, an answer
  -- `leaseHeld: true` means that no other worker took the run at any moment of the work. The work's
  -- result is passed on, and at the end the run is still processed, under the lease's attempt, until
  -- ten minutes after the last renewal.
  pub run_heartbeat_exclusive :
      {A : Type 0} (before after : List (Beat State)) (now : Option ℕ) (result : A) (s : State)
      {a : A}
      → All (Orderly renewal attempt renewal_grows) (before ++ after)
      → attempt s ≡ lease.attempt
      → (run_with_smart_digest_run_lease_heartbeat db lease (before ++ after) now (some result) s).0
        ≡ some (true, a)
      → (attempt (heartbeats renewal true before s).1 ≡ lease.attempt)
        × (a ≡ result)
        × (t : ℕ) × (r : RunRow) × (now ≡ some t)
        × (find lease.id
              (run_with_smart_digest_run_lease_heartbeat db lease
                (before ++ after)
                now
                (some result)
                s).1
            ≡ some r)
        × (r.attempt ≡ lease.attempt)
        × (r.status ≡ processing)
        × (r.lease_expires_at ≡ some (add_milliseconds t smart_digest_processing_lease_ms))
  unfolding run_with_smart_digest_run_lease_heartbeat renew_row
  run_heartbeat_exclusive before after now result s gs start h =
      let (kept, same, t, u, at, renewed, left) =
        run_keeps_level renewal attempt renewal_grows lease.attempt before after now result s
          renewal_exact gs start h in
      let (r, found, number, busy, row) =
        renew_exact db lease t smart_digest_processing_lease_ms u renewed in
      (
        kept,
        same,
        t,
        renew_row t (add_milliseconds t smart_digest_processing_lease_ms) r,
        at,
        ap (find lease.id) left ∙ row,
        number,
        busy,
        refl,
      )
