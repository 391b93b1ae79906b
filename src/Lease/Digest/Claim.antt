-- ===== src/Lease/Digest/Claim.antt =====
-- A claim of a Smart Digest run: when it succeeds, what it returns and what it leaves in the row.
use arctic_rss.Prelude.{
  ℕ, ◌+◌, String, ◌≡◌, refl, Option, none, some, arith, eq_refl, ◌==◌, if◌then◌else◌,
}
use arctic_rss.RowStore.{RowStore, updated, hits}
use arctic_rss.Lease.Time.{add_milliseconds}
use arctic_rss.Lease.Digest.{
  RunRow, SmartDigestRunLease, is_claimable, claim_row, confirm_claim, claim_smart_digest_run,
}

-- The lease that a claim takes on a run that nobody else touches.
abbrev pub taken : String → String → ℕ → RunRow → SmartDigestRunLease
taken id owner expires r = record {
  attempt = r.attempt + 1;
  id = id;
  lease_expires_at = expires;
  lease_owner = owner;
}

abbrev pub claimed : String → String → ℕ → ℕ → Option RunRow → Option SmartDigestRunLease
claimed id owner now expires none = none
claimed id owner now expires (some r) =
    if is_claimable now r then some (taken id owner expires r) else none

confirm_claim-updated :
    (id owner : String) (now expires : ℕ) (o : Option RunRow)
    → (if hits (is_claimable now) o == 1
        then confirm_claim id owner expires
            (updated (is_claimable now) (claim_row owner now expires) o)
        else none)
      ≡ claimed id owner now expires o
unfolding confirm_claim claim_row
confirm_claim-updated id owner now expires none = refl
confirm_claim-updated id owner now expires (some r) = ground (arith, eq_refl owner)

-- A lease that the check after a claim returns is in the row.
pub confirm_claim_sound :
    (id owner : String) (expires : ℕ) (o : Option RunRow) {lease : SmartDigestRunLease}
    → confirm_claim id owner expires o ≡ some lease
    → (r : RunRow) × (o ≡ some r) × (r.attempt ≡ lease.attempt) × (lease.id ≡ id)
unfolding confirm_claim
confirm_claim_sound id owner expires none h = cc
confirm_claim_sound id owner expires (some r) h = (r, refl, ground arith, ground arith)

module _ (db : RowStore RunRow) where
  open db use {State, find, update_many, count_lem, find-update_self}

  -- A claim that nobody interrupts succeeds exactly where the run waits, has failed, or is processed
  -- under a lease that has no expiry or one that has passed. Then it returns the next attempt, and the
  -- run is taken. Otherwise it returns `null` and leaves the run as it is: a run that is completed or
  -- canceled is never taken up again.
  claim_run_exact :
      (id owner : String) (now duration_ms : ℕ) (s : State)
      → ((claim_smart_digest_run db (λ t. t) id owner now duration_ms s).0
          ≡ claimed id owner now (add_milliseconds now duration_ms) (find id s))
        × (find id (claim_smart_digest_run db (λ t. t) id owner now duration_ms s).1
            ≡ updated
                (is_claimable now)
                (claim_row owner now (add_milliseconds now duration_ms))
                (find id s))
  unfolding claim_smart_digest_run
  claim_run_exact id owner now d s =
      let expires = add_milliseconds now d in
      let self = find-update_self id (is_claimable now) (claim_row owner now expires) s in
      let count = count_lem id (is_claimable now) (claim_row owner now expires) s in
      (
        ground (arith, count, self, confirm_claim-updated id owner now expires (find id s)),
        ground (arith, count, self),
      )
