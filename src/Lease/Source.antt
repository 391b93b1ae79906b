-- ===== src/Lease/Source.antt =====
-- Leases of feed and podcast refreshes (src/lib/source-refresh-leases.ts). The `id` column is the key
-- of the table, and stands beside the row.

pub mod Claim
pub mod Statements
pub mod Fencing
pub mod Heartbeat
mod Tests
use arctic_rss.Prelude.{
  ℕ, ◌+◌, ◌*◌, String, Bool, true, false, Option, none, some, List, [], ◌∷◌, ◌&&◌, ◌||◌, not, ltb,
  leb, ◌==◌, str_eq, if◌then◌else◌,
}
use arctic_rss.RowStore.{RowStore}
use arctic_rss.Lease.Time.{add_milliseconds}
use arctic_rss.Lease.Heartbeat.{Beat, run_with_heartbeat}

abbrev pub source_refresh_lease_ms : ℕ
source_refresh_lease_ms = 10 * 60 * 1000

pub record SourceRefreshLease : Type 0 where
  pub generation : ℕ
  pub id : String
  pub lease_expires_at : ℕ
  pub owner : String

pub record SourceRow : Type 0 where
  pub refresh_generation : ℕ
  pub refresh_lease_expires_at : Option ℕ
  pub refresh_owner : Option String
  pub refresh_started_at : Option ℕ

-- `{ lte: now }` and `{ gt: now }` on a column that can be null.
abbrev lte : Option ℕ → ℕ → Bool
lte none now = false
lte (some t) now = leb t now

abbrev pub gt : Option ℕ → ℕ → Bool
gt none now = false
gt (some t) now = ltb now t

abbrev pub is_owner : Option String → String → Bool
is_owner none owner = false
is_owner (some o) owner = str_eq o owner

-- The `where` and `data` of a claim.
pub is_claimable : ℕ → SourceRow → Bool
is_claimable now r = elim r.refresh_lease_expires_at [ none ↦ true | some t ↦ leb t now ]

pub claim_row : String → ℕ → ℕ → SourceRow → SourceRow
claim_row owner now expires r = record r {
  refresh_generation = r.refresh_generation + 1;
  refresh_lease_expires_at = some expires;
  refresh_owner = some owner;
  refresh_started_at = some now;
}

pub source_refresh_lease_where : SourceRefreshLease → ℕ → SourceRow → Bool
source_refresh_lease_where lease now r =
    (r.refresh_generation == lease.generation)
    && (gt r.refresh_lease_expires_at now && is_owner r.refresh_owner lease.owner)

pub renew_row : ℕ → SourceRow → SourceRow
renew_row expires r = record r { refresh_lease_expires_at = some expires }

pub release_row : ℕ → SourceRow → SourceRow
release_row now r = record r { refresh_lease_expires_at = some now; refresh_owner = none }

-- The check of the row that is read back after a claim.
pub expires_is : Option ℕ → ℕ → Bool
expires_is none expires = false
expires_is (some t) expires = t == expires

pub confirm_claim : String → String → ℕ → Option SourceRow → Option SourceRefreshLease
unfolding expires_is
confirm_claim id owner expires none = none
confirm_claim id owner expires (some r) =
    if ltb r.refresh_generation 1
      || (not (is_owner r.refresh_owner owner)
          || not (expires_is r.refresh_lease_expires_at expires))
    then none
    else some (record {
      generation = r.refresh_generation;
      id = id;
      lease_expires_at = expires;
      owner = owner;
    })

module _ (db : RowStore SourceRow) where
  open db use {State, find, update_many}

  -- `meanwhile` is what other clients do between the update and the read.
  pub claim_source_refresh_lease :
      (State → State) → String → String → ℕ → ℕ → State → Option SourceRefreshLease × State
  claim_source_refresh_lease meanwhile id owner now duration_ms s =
      let expires = add_milliseconds now duration_ms in
      let (count, s') = update_many id (is_claimable now) (claim_row owner now expires) s in
      let s'' = meanwhile s' in
      if count == 1 then (confirm_claim id owner expires (find id s''), s'') else (none, s')

  pub renew_source_refresh_lease : SourceRefreshLease → ℕ → ℕ → State → Bool × State
  renew_source_refresh_lease lease now duration_ms s =
      let (count, s') =
        update_many lease.id (source_refresh_lease_where lease now)
          (renew_row (add_milliseconds now duration_ms)) s in
      (count == 1, s')

  pub release_source_refresh_lease : SourceRefreshLease → ℕ → State → State
  release_source_refresh_lease lease now s =
      (update_many lease.id (source_refresh_lease_where lease now) (release_row now) s).1

module _ (db : RowStore SourceRow) where
  open db use {State}

  pub run_with_source_refresh_lease_heartbeat {ℓ} :
      {Result : Type ℓ}
      → SourceRefreshLease
      → List (Beat State)
      → Option ℕ
      → Option Result
      → State
      → Option (Bool × Result) × State
  run_with_source_refresh_lease_heartbeat lease =
      run_with_heartbeat (λ now. renew_source_refresh_lease db lease now source_refresh_lease_ms)
