-- ===== src/Lease/Digest/Fencing.antt =====
-- The attempt number of a Smart Digest run fences its leases.
use arctic_rss.Prelude.{
  ℕ, ◌+◌, ◌≤◌, ◌<◌, String, ◌≡◌, refl, ◌∙◌, ap, Bool, true, false, Option, none, some, List, [],
  ◌∷◌, arith, inl, inr, Option-cases,
}
use arctic_rss.RowStore.{RowStore, updated, hits}
use arctic_rss.RowStore.Monotone.{level, update_grows}
use arctic_rss.Lease.Time.{add_milliseconds}
use arctic_rss.Lease.Digest.{
  processing, RunRow, SmartDigestRunLease, is_claimable, claim_row, renew_row,
  smart_digest_run_lease_where, claim_smart_digest_run, renew_smart_digest_run_lease,
}
use arctic_rss.Lease.Digest.Claim.{confirm_claim_sound}

abbrev pub attempt_of : RunRow → ℕ
attempt_of r = r.attempt

-- Another client of the table: a claim, a renewal, or a statement that writes other columns and no
-- smaller attempt number.
pub data Statement : Type 0 where
  claim : String → String → ℕ → ℕ → Statement
  renew : SmartDigestRunLease → ℕ → ℕ → Statement
  write :
      String
      → (RunRow → Bool)
      → (change : RunRow → RunRow) → ((r : RunRow) → r.attempt ≤ (change r).attempt)
      → Statement

module _ (db : RowStore RunRow) where
  open db use {State, find, update_many, count_lem, find-update_self}

  unfoldable pub run_statement : Statement → State → State
  run_statement (claim id owner now d) s =
      (update_many id (is_claimable now) (claim_row owner now (add_milliseconds now d)) s).1
  run_statement (renew lease now d) s = (renew_smart_digest_run_lease db lease now d s).1
  run_statement (write id test change _) s = (update_many id test change s).1

  unfoldable pub run_statements : List Statement → State → State
  run_statements [] s = s
  run_statements (t ∷ ts) s = run_statements ts (run_statement t s)

  pub run_statement_grows :
      (t : Statement) (other : String) (s : State)
      → level attempt_of (find other s) ≤ level attempt_of (find other (run_statement t s))
  unfolding run_statement renew_smart_digest_run_lease claim_row renew_row
  run_statement_grows (claim id owner now d) other s =
      update_grows db attempt_of id other _ _ s (λ r. omega arith)
  run_statement_grows (renew lease now d) other s =
      update_grows db attempt_of lease.id other _ _ s (λ r. omega arith)
  run_statement_grows (write id test change up) other s =
      update_grows db attempt_of id other test change s up

  pub run_statements_grows :
      (ts : List Statement) (other : String) (s : State)
      → level attempt_of (find other s) ≤ level attempt_of (find other (run_statements ts s))
  unfolding run_statements
  run_statements_grows [] other s = omega arith
  run_statements_grows (t ∷ ts) other s =
      omega
        (arith, run_statement_grows t other s, run_statements_grows ts other (run_statement t s))

hit_raises :
    (owner : String) (now expires : ℕ) (o : Option RunRow)
    → hits (is_claimable now) o ≡ 1
    → level attempt_of (updated (is_claimable now) (claim_row owner now expires) o)
      ≡ level attempt_of o + 1
unfolding claim_row
hit_raises owner now expires none h = absurd (omega arith)
hit_raises owner now expires (some r) h = ground arith

where_fenced :
    (lease : SmartDigestRunLease) (now : ℕ) (o : Option RunRow) (change : RunRow → RunRow)
    → lease.attempt < level attempt_of o
    → (hits (smart_digest_run_lease_where lease now) o ≡ 0)
      × (updated (smart_digest_run_lease_where lease now) change o ≡ o)
unfolding smart_digest_run_lease_where
where_fenced lease now none change h = (refl, refl)
where_fenced lease now (some r) change h = ground arith

module _ (db : RowStore RunRow) where
  open db use {State, find, update_many, count_lem, find-update_self}

  -- A renewal succeeds only for the attempt in the row, while it is processed.
  pub renew_exact :
      (lease : SmartDigestRunLease) (now duration_ms : ℕ) (s : State)
      → (renew_smart_digest_run_lease db lease now duration_ms s).0 ≡ true
      → (r : RunRow) × (find lease.id s ≡ some r)
        × (r.attempt ≡ lease.attempt)
        × (r.status ≡ processing)
        × (find lease.id (renew_smart_digest_run_lease db lease now duration_ms s).1
            ≡ some (renew_row now (add_milliseconds now duration_ms) r))
  unfolding renew_smart_digest_run_lease smart_digest_run_lease_where
  renew_exact lease now d s h =
      let test = smart_digest_run_lease_where lease now in
      let change = renew_row now (add_milliseconds now d) in
      let count = count_lem lease.id test change s in
      let self = find-update_self lease.id test change s in
      elim (Option-cases (find lease.id s)) [
        | inl missing ↦ absurd (ground (arith, count))
        | inr (r, found) ↦
            (r, found, ground (arith, count), ground (arith, count), ground (arith, count, self))
      ]

  stale_run_fenced :
      (lease : SmartDigestRunLease) (now duration_ms : ℕ) (s : State)
      → lease.attempt < level attempt_of (find lease.id s)
      → ((renew_smart_digest_run_lease db lease now duration_ms s).0 ≡ false)
        × (find lease.id (renew_smart_digest_run_lease db lease now duration_ms s).1
            ≡ find lease.id s)
  unfolding renew_smart_digest_run_lease
  stale_run_fenced lease now d s h =
      let test = smart_digest_run_lease_where lease now in
      let (missed, kept) =
        where_fenced lease now (find lease.id s) (renew_row now (add_milliseconds now d)) h in
      (rw (count_lem lease.id test _ s, missed), find-update_self lease.id test _ s ∙ kept)

  claim_raises :
      (meanwhile : State → State) (id owner : String) (now duration_ms : ℕ) (s : State)
      {lease : SmartDigestRunLease} {s' : State}
      → ((t : State) → level attempt_of (find id t) ≤ level attempt_of (find id (meanwhile t)))
      → claim_smart_digest_run db meanwhile id owner now duration_ms s ≡ (some lease, s')
      → (level attempt_of (find id s) + 1 ≤ lease.attempt)
        × (level attempt_of (find id s') ≡ lease.attempt)
        × (lease.id ≡ id)
  unfolding claim_smart_digest_run
  claim_raises meanwhile id owner now d s {lease} {s'} grows h =
      let expires = add_milliseconds now d in
      let change = update_many id (is_claimable now) (claim_row owner now expires) s in
      let read = find id (meanwhile change.1) in
      let (r, found, attempt, same) =
        confirm_claim_sound id owner expires read {lease = lease} (ground arith) in
      let hit : hits (is_claimable now) (find id s) ≡ 1 =
        ground (arith, count_lem id (is_claimable now) (claim_row owner now expires) s) in
      let left : s' ≡ meanwhile change.1 = ground arith in
      let self = find-update_self id (is_claimable now) (claim_row owner now expires) s in
      let here = ap (λ (t : State). level attempt_of (find id t)) left in
      let there = ap (level attempt_of) found in
      (
        omega (
          arith,
          grows change.1,
          hit_raises owner now expires (find id s) hit,
          attempt,
          ap (level attempt_of) self,
          there,
        ),
        omega (arith, here, there, attempt),
        same,
      )

  -- Two workers claim one run, the second after any statements of any clients that never lower the
  -- attempt number, which may also run while a claim waits for the row that it reads back. Then the
  -- attempts differ, and whatever has been run since, the first worker's renewal returns `false` and
  -- leaves the run as it is.
  pub run_takeover_fences :
      (first second later between1 between2 : List Statement) (id owner1 owner2 : String)
      (now1 duration1 now2 duration2 : ℕ) (s : State) {lease1 lease2 : SmartDigestRunLease}
      {s1 s2 : State} (now duration_ms : ℕ)
      → claim_smart_digest_run db
          (run_statements db between1)
          id
          owner1
          now1
          duration1
          (run_statements db first s)
        ≡ (some lease1, s1)
      → claim_smart_digest_run db
          (run_statements db between2)
          id
          owner2
          now2
          duration2
          (run_statements db second s1)
        ≡ (some lease2, s2)
      → (lease1.attempt < lease2.attempt)
        × ((renew_smart_digest_run_lease db lease1 now duration_ms (run_statements db later s2)).0
            ≡ false)
        × (find id
              (renew_smart_digest_run_lease db lease1 now duration_ms
                (run_statements db later s2)).1
            ≡ find id (run_statements db later s2))
  run_takeover_fences first second later between1 between2 id o1 o2 n1 d1 n2 d2 s {lease1} {lease2}
        {s1} {s2} now d c1 c2 =
      let (_, at1, same1) =
        claim_raises _ id o1 n1 d1 _ (λ t. run_statements_grows db between1 id t) c1 in
      let (up2, at2, _) =
        claim_raises _ id o2 n2 d2 _ (λ t. run_statements_grows db between2 id t) c2 in
      let newer : lease1.attempt < lease2.attempt =
        omega (arith, up2, at1, run_statements_grows db second id s1) in
      let stale : lease1.attempt < level attempt_of (find id (run_statements db later s2)) =
        omega (arith, newer, at2, run_statements_grows db later id s2) in
      let (refused, unrenewed) =
        stale_run_fenced lease1 now d (run_statements db later s2) (rw same1 stale) in
      (newer, refused, rw (← same1) unrenewed)
