-- ===== src/Lease/Digest.antt =====
-- Leases of Smart Digest runs (src/lib/smart-digest-run-leases.ts). The `id` column is the key of the
-- table, and stands beside the row.
pub mod Claim
pub mod Fencing
pub mod Heartbeat
mod Tests
use arctic_rss.Prelude.{
  ℕ, ◌+◌, ◌*◌, String, Bool, true, false, Option, none, some, List, [], ◌∷◌, ◌&&◌, ◌||◌, not, ltb,
  leb, ◌==◌, str_eq, if◌then◌else◌,
}
use arctic_rss.RowStore.{RowStore}
use arctic_rss.Lease.Time.{add_milliseconds}
use arctic_rss.Lease.Heartbeat.{Beat, run_with_heartbeat}

abbrev pub smart_digest_processing_lease_ms : ℕ
smart_digest_processing_lease_ms = 10 * 60 * 1000

-- The enum `DigestRunStatus` of the database schema.
pub data RunStatus : Type 0 where
  pending processing completed failed canceled : RunStatus

pub record SmartDigestRunLease : Type 0 where
  pub attempt : ℕ
  pub id : String
  pub lease_expires_at : ℕ
  pub lease_owner : String

pub record RunRow : Type 0 where
  pub attempt : ℕ
  pub error_message : Option String
  pub last_heartbeat_at : Option ℕ
  pub lease_expires_at : Option ℕ
  pub lease_owner : Option String
  pub processing_started_at : Option ℕ
  pub status : RunStatus

abbrev pub is_processing : RunStatus → Bool
is_processing processing = true
is_processing _ = false

abbrev pub null_or_lte : Option ℕ → ℕ → Bool
null_or_lte none now = true
null_or_lte (some t) now = leb t now

abbrev pub gt : Option ℕ → ℕ → Bool
gt none now = false
gt (some t) now = ltb now t

abbrev pub is_owner : Option String → String → Bool
is_owner none owner = false
is_owner (some o) owner = str_eq o owner

abbrev is_at : Option ℕ → ℕ → Bool
is_at none expires = false
is_at (some t) expires = t == expires

-- The `OR` of a claim's `where`: a run that waits, one that failed, or one whose worker is gone.
status_claimable : RunStatus → Option ℕ → ℕ → Bool
status_claimable pending expires now = true
status_claimable failed expires now = true
status_claimable processing expires now = null_or_lte expires now
status_claimable _ expires now = false

pub is_claimable : ℕ → RunRow → Bool
unfolding status_claimable
is_claimable now r = status_claimable r.status r.lease_expires_at now

pub claim_row : String → ℕ → ℕ → RunRow → RunRow
claim_row lease_owner now expires r = record r {
  attempt = r.attempt + 1;
  error_message = none;
  last_heartbeat_at = some now;
  lease_expires_at = some expires;
  lease_owner = some lease_owner;
  processing_started_at = some now;
  status = processing;
}

pub confirm_claim : String → String → ℕ → Option RunRow → Option SmartDigestRunLease
confirm_claim run_id lease_owner expires none = none
confirm_claim run_id lease_owner expires (some r) =
    if ltb r.attempt 1
      || (not (is_owner r.lease_owner lease_owner)
          || (not (is_at r.lease_expires_at expires) || not (is_processing r.status)))
    then none
    else some (record {
      attempt = r.attempt;
      id = run_id;
      lease_expires_at = expires;
      lease_owner = lease_owner;
    })

pub smart_digest_run_lease_where : SmartDigestRunLease → ℕ → RunRow → Bool
smart_digest_run_lease_where lease now r =
    (r.attempt == lease.attempt)
    && (gt r.lease_expires_at now
        && (is_owner r.lease_owner lease.lease_owner && is_processing r.status))

pub renew_row : ℕ → ℕ → RunRow → RunRow
renew_row now expires r = record r { last_heartbeat_at = some now; lease_expires_at = some expires }

module _ (db : RowStore RunRow) where
  open db use {State, find, update_many}

  -- `meanwhile` is what other clients do between the update and the read.
  pub claim_smart_digest_run :
      (State → State) → String → String → ℕ → ℕ → State → Option SmartDigestRunLease × State
  claim_smart_digest_run meanwhile run_id lease_owner now duration_ms s =
      let expires = add_milliseconds now duration_ms in
      let (count, s') =
        update_many run_id (is_claimable now) (claim_row lease_owner now expires) s in
      let s'' = meanwhile s' in
      if count == 1
      then (confirm_claim run_id lease_owner expires (find run_id s''), s'')
      else (none, s')

  pub renew_smart_digest_run_lease : SmartDigestRunLease → ℕ → ℕ → State → Bool × State
  renew_smart_digest_run_lease lease now duration_ms s =
      let (count, s') =
        update_many lease.id (smart_digest_run_lease_where lease now)
          (renew_row now (add_milliseconds now duration_ms)) s in
      (count == 1, s')

  pub run_with_smart_digest_run_lease_heartbeat {ℓ} :
      {Result : Type ℓ}
      → SmartDigestRunLease
      → List (Beat State)
      → Option ℕ
      → Option Result
      → State
      → Option (Bool × Result) × State
  run_with_smart_digest_run_lease_heartbeat lease =
      run_with_heartbeat
        (λ now. renew_smart_digest_run_lease lease now smart_digest_processing_lease_ms)
