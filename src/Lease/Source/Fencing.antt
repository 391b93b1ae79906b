-- ===== src/Lease/Source/Fencing.antt =====
-- A lease is fenced by its generation: once another client has taken the source, the old lease can
-- neither renew nor release it.
use arctic_rss.Prelude.{
  ℕ, ◌+◌, ◌≤◌, ◌<◌, String, ◌≡◌, refl, ◌∙◌, ap, true, false, Option, none, some, List, arith, inl,
  inr, Option-cases,
}
use arctic_rss.RowStore.{RowStore, updated, hits}
use arctic_rss.Lease.Time.{add_milliseconds}
use arctic_rss.Lease.Source.{
  SourceRow, SourceRefreshLease, is_claimable, claim_row, renew_row, release_row,
  source_refresh_lease_where, claim_source_refresh_lease, renew_source_refresh_lease,
  release_source_refresh_lease, source_refresh_lease_where, gt,
}
use arctic_rss.Lease.Source.Claim.{claim-IsHeld, is_owner_sound}
use arctic_rss.Lease.Source.Statements.{
  Statement, run_statements, generation_of, run_statements_grows,
}

-- The lease is the row's, and has not run out.
pub record IsLive (lease : SourceRefreshLease) (now : ℕ) (r : SourceRow) : Type 0 where
  pub generation : r.refresh_generation ≡ lease.generation
  pub owner : r.refresh_owner ≡ some lease.owner
  pub unexpired : gt r.refresh_lease_expires_at now ≡ true

where-IsLive :
    (lease : SourceRefreshLease) (now : ℕ) (r : SourceRow)
    → source_refresh_lease_where lease now r ≡ true
    → IsLive lease now r
unfolding source_refresh_lease_where
where-IsLive lease now r h = record {
  generation = ground arith;
  owner = is_owner_sound r.refresh_owner lease.owner (ground arith);
  unexpired = ground arith;
}

where_fenced :
    (lease : SourceRefreshLease) (now : ℕ) (o : Option SourceRow) (change : SourceRow → SourceRow)
    → lease.generation < generation_of o
    → (hits (source_refresh_lease_where lease now) o ≡ 0)
      × (updated (source_refresh_lease_where lease now) change o ≡ o)
unfolding source_refresh_lease_where
where_fenced lease now none change h = (refl, refl)
where_fenced lease now (some r) change h = ground arith

hit_raises :
    (owner : String) (now expires : ℕ) (o : Option SourceRow)
    → hits (is_claimable now) o ≡ 1
    → generation_of (updated (is_claimable now) (claim_row owner now expires) o)
      ≡ generation_of o + 1
unfolding claim_row
hit_raises owner now expires none h = absurd (omega arith)
hit_raises owner now expires (some r) h = ground arith

module _ (db : RowStore SourceRow) where
  open db use {State, find, update_many, count_lem, find-update_self}

  -- A renewal succeeds only for the lease in the row, before it runs out; it moves the expiry, and
  -- nothing else.
  pub renew-IsLive :
      (lease : SourceRefreshLease) (now duration_ms : ℕ) (s : State)
      → (renew_source_refresh_lease db lease now duration_ms s).0 ≡ true
      → (r : SourceRow) × (find lease.id s ≡ some r)
        × IsLive lease now r
        × (find lease.id (renew_source_refresh_lease db lease now duration_ms s).1
            ≡ some (renew_row (add_milliseconds now duration_ms) r))
  unfolding renew_source_refresh_lease
  renew-IsLive lease now d s h =
      let test = source_refresh_lease_where lease now in
      let count = count_lem lease.id test (renew_row (add_milliseconds now d)) s in
      let self = find-update_self lease.id test (renew_row (add_milliseconds now d)) s in
      elim (Option-cases (find lease.id s)) [
        | inl missing ↦ absurd (ground (arith, count))
        | inr (r, found) ↦
            let meets : source_refresh_lease_where lease now r ≡ true = ground (arith, count) in
            (r, found, where-IsLive lease now r meets, ground (arith, self))
      ]

  -- A lease of an earlier generation changes nothing.
  stale_lease_fenced :
      (lease : SourceRefreshLease) (now duration_ms : ℕ) (s : State)
      → lease.generation < generation_of (find lease.id s)
      → ((renew_source_refresh_lease db lease now duration_ms s).0 ≡ false)
        × (find lease.id (renew_source_refresh_lease db lease now duration_ms s).1
            ≡ find lease.id s)
        × (find lease.id (release_source_refresh_lease db lease now s) ≡ find lease.id s)
  unfolding renew_source_refresh_lease release_source_refresh_lease
  stale_lease_fenced lease now d s h =
      let test = source_refresh_lease_where lease now in
      let renewed =
        where_fenced lease now (find lease.id s) (renew_row (add_milliseconds now d)) h in
      let released = where_fenced lease now (find lease.id s) (release_row now) h in
      (
        rw (count_lem lease.id test _ s, renewed.0),
        find-update_self lease.id test _ s ∙ renewed.1,
        find-update_self lease.id test _ s ∙ released.1,
      )

  -- A claim that returns a lease has raised the generation.
  claim_raises :
      (meanwhile : State → State) (id owner : String) (now duration_ms : ℕ) (s : State)
      {lease : SourceRefreshLease} {s' : State}
      → ((t : State) → generation_of (find id t) ≤ generation_of (find id (meanwhile t)))
      → claim_source_refresh_lease db meanwhile id owner now duration_ms s ≡ (some lease, s')
      → generation_of (find id s) + 1 ≤ lease.generation
  unfolding claim_source_refresh_lease
  claim_raises meanwhile id owner now d s {s' = s'} grows h =
      let expires = add_milliseconds now d in
      let (r, found, held, _, _, _) = claim-IsHeld db meanwhile id owner now d s h in
      let change = update_many id (is_claimable now) (claim_row owner now expires) s in
      let hit : hits (is_claimable now) (find id s) ≡ 1 =
        ground (arith, count_lem id (is_claimable now) (claim_row owner now expires) s) in
      let raised = hit_raises owner now expires (find id s) hit in
      let left : s' ≡ meanwhile change.1 = ground arith in
      let self = find-update_self id (is_claimable now) (claim_row owner now expires) s in
      omega (
        arith,
        grows change.1,
        held.generation,
        raised,
        ap generation_of self,
        ap (λ (t : State). generation_of (find id t)) left,
        ap generation_of found,
      )

  -- Two clients claim one source, the second after any statements of any clients. While they wait
  -- for the row that they read back, others may run statements too. Then the second lease has the
  -- greater generation, and whatever has been run since, the first lease can neither renew the source
  -- nor release it: both leave the row as it is, and the renewal returns `false`.
  pub takeover_fences :
      (first second later between1 between2 : List Statement) (id owner1 owner2 : String)
      (now1 duration1 now2 duration2 : ℕ) (s : State) {lease1 lease2 : SourceRefreshLease}
      {s1 s2 : State} (now duration_ms : ℕ)
      → claim_source_refresh_lease db
          (run_statements db between1)
          id
          owner1
          now1
          duration1
          (run_statements db first s)
        ≡ (some lease1, s1)
      → claim_source_refresh_lease db
          (run_statements db between2)
          id
          owner2
          now2
          duration2
          (run_statements db second s1)
        ≡ (some lease2, s2)
      → (lease1.generation < lease2.generation)
        × ((renew_source_refresh_lease db lease1 now duration_ms (run_statements db later s2)).0
            ≡ false)
        × (find id
              (renew_source_refresh_lease db lease1 now duration_ms (run_statements db later s2)).1
            ≡ find id (run_statements db later s2))
        × (find id (release_source_refresh_lease db lease1 now (run_statements db later s2))
            ≡ find id (run_statements db later s2))
  takeover_fences first second later between1 between2 id o1 o2 n1 d1 n2 d2 s {lease1} {lease2} {s1}
        {s2} now d c1 c2 =
      let (_, found1, held1, same1, _, _) = claim-IsHeld db _ id o1 n1 d1 _ c1 in
      let (_, found2, held2, _, _, _) = claim-IsHeld db _ id o2 n2 d2 _ c2 in
      let raised = claim_raises _ id o2 n2 d2 _ (λ t. run_statements_grows db between2 id t) c2 in
      let newer : lease1.generation < lease2.generation = omega (
        arith,
        raised,
        run_statements_grows db second id s1,
        held1.generation,
        ap generation_of found1,
      ) in
      let stale : lease1.generation < generation_of (find id (run_statements db later s2)) = omega (
        arith,
        newer,
        run_statements_grows db later id s2,
        held2.generation,
        ap generation_of found2,
      ) in
      let (refused, unrenewed, unreleased) =
        stale_lease_fenced lease1 now d (run_statements db later s2) (rw same1 stale) in
      (newer, refused, rw (← same1) unrenewed, rw (← same1) unreleased)
