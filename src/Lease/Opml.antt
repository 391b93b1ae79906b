-- ===== src/Lease/Opml.antt =====
-- Leases of the entries of an OPML import (src/lib/opml-import-leases.ts). The state is one import
-- job with its entries; the statements touch no other job. A raw SQL statement is one atomic step.
pub mod Rows
pub mod Claim
pub mod Finalize
mod Tests
pub mod Counters
pub mod Runs
use arctic_rss.Prelude.{
  ℕ, ◌+◌, ◌*◌, String, Bool, true, false, Option, none, some, List, [], ◌∷◌, ◌&&◌, ◌||◌, not, ltb,
  leb, ◌==◌, str_eq, if◌then◌else◌, is_some, map, any,
}
use arctic_rss.Lease.Time.{add_milliseconds}
use arctic_rss.Lease.Heartbeat.{Beat, run_with_heartbeat}

abbrev opml_import_entry_lease_ms : ℕ
opml_import_entry_lease_ms = 60000

-- The enums `ImportStatus` and `ImportEntryStatus` of the database schema.
pub data JobStatus : Type 0 where
  pending processing completed failed canceled : JobStatus

pub data EntryStatus : Type 0 where
  pending processing added skipped failed : EntryStatus

pub record Entry : Type 0 where
  pub id : String
  pub attempt : ℕ
  pub error_message : Option String
  pub folder_name : Option String
  pub lease_expires_at : Option ℕ
  pub lease_owner : Option String
  pub processed_at : Option ℕ
  pub processing_started_at : Option ℕ
  pub sequence : ℕ
  pub status : EntryStatus
  pub title : String
  pub xml_url : String

pub record Job : Type 0 where
  pub id : String
  pub status : JobStatus
  pub cancel_requested_at : Option ℕ
  pub total_feeds : ℕ
  pub processed_feeds : ℕ
  pub added_feeds : ℕ
  pub skipped_feeds : ℕ
  pub failed_feeds : ℕ

pub record Import : Type 0 where
  pub job : Job
  pub entries : List Entry

pub record EntryLease : Type 0 where
  pub attempt : ℕ
  pub folder_name : Option String
  pub id : String
  pub import_job_id : String
  pub lease_expires_at : ℕ
  pub lease_owner : String
  pub sequence : ℕ
  pub title : String
  pub xml_url : String

-- `"leaseExpiresAt" IS NULL OR "leaseExpiresAt" <= now`, and `"leaseExpiresAt" > now`.
abbrev pub null_or_lte : Option ℕ → ℕ → Bool
null_or_lte none now = true
null_or_lte (some t) now = leb t now

abbrev pub gt : Option ℕ → ℕ → Bool
gt none now = false
gt (some t) now = ltb now t

abbrev pub is_owner : Option String → String → Bool
is_owner none owner = false
is_owner (some o) owner = str_eq o owner

abbrev pub is_processing : EntryStatus → Bool
is_processing EntryStatus.processing = true
is_processing _ = false

-- The job's part of a condition.
abbrev status_open : JobStatus → Bool
status_open JobStatus.pending = true
status_open JobStatus.processing = true
status_open _ = false

pub is_open : Job → Bool
is_open j = status_open j.status && not (is_some j.cancel_requested_at)

status_claimable : EntryStatus → Option ℕ → ℕ → Bool
status_claimable EntryStatus.pending expires now = true
status_claimable EntryStatus.processing expires now = null_or_lte expires now
status_claimable _ expires now = false

pub is_claimable : ℕ → Entry → Bool
unfolding status_claimable
is_claimable now e = status_claimable e.status e.lease_expires_at now

-- `ORDER BY "sequence" ASC LIMIT 1`: the entry with the least sequence that meets the test.
lesser : Entry → Option Entry → Entry
lesser e none = e
lesser e (some f) = if leb e.sequence f.sequence then e else f

pub first_by_sequence : (Entry → Bool) → List Entry → Option Entry
unfolding lesser
first_by_sequence test [] = none
first_by_sequence test (e ∷ es) =
    let rest = first_by_sequence test es in if test e then some (lesser e rest) else rest

pub update_entries : (Entry → Bool) → (Entry → Entry) → List Entry → List Entry
update_entries test change [] = []
update_entries test change (e ∷ es) =
    (if test e then change e else e) ∷ update_entries test change es

abbrev pub has_id : String → Entry → Bool
has_id id e = str_eq e.id id

pub claim_entry : String → ℕ → ℕ → Entry → Entry
claim_entry owner now expires e = record e {
  attempt = e.attempt + 1;
  lease_owner = some owner;
  lease_expires_at = some expires;
  processing_started_at = some now;
  status = EntryStatus.processing;
}

pub lease_of : String → String → ℕ → Entry → EntryLease
lease_of job_id owner expires e = record {
  attempt = e.attempt + 1;
  folder_name = e.folder_name;
  id = e.id;
  import_job_id = job_id;
  lease_expires_at = expires;
  lease_owner = owner;
  sequence = e.sequence;
  title = e.title;
  xml_url = e.xml_url;
}

-- `SKIP LOCKED`: `locked` says which entries another transaction holds at that moment.
abbrev pub is_next : (String → Bool) → ℕ → Job → Entry → Bool
is_next locked now job e = is_open job && (is_claimable now e && not (locked e.id))

pub claim_opml_import_entry : (String → Bool) → String → ℕ → ℕ → Import → Option EntryLease × Import
claim_opml_import_entry locked owner now duration_ms s =
    let expires = add_milliseconds now duration_ms in
    elim (first_by_sequence (is_next locked now s.job) s.entries) [
      | none ↦ (none, s)
      | some e ↦ (
        some (lease_of s.job.id owner expires e),
        record s {
          entries = update_entries (has_id e.id) (claim_entry owner now expires) s.entries;
        },
      )
    ]

-- How an entry ended.
pub data Outcome : Type 0 where
  added failed skipped : Outcome

abbrev pub outcome_status : Outcome → EntryStatus
outcome_status Outcome.added = EntryStatus.added
outcome_status Outcome.failed = EntryStatus.failed
outcome_status Outcome.skipped = EntryStatus.skipped

abbrev pub added_increment : Outcome → ℕ
added_increment Outcome.added = 1
added_increment _ = 0

abbrev pub failed_increment : Outcome → ℕ
failed_increment Outcome.failed = 1
failed_increment _ = 0

abbrev pub skipped_increment : Outcome → ℕ
skipped_increment Outcome.skipped = 1
skipped_increment _ = 0

-- The entry's part of the fence.
pub is_fenced : EntryLease → ℕ → Entry → Bool
is_fenced lease now e =
    str_eq e.id lease.id
    && ((e.attempt == lease.attempt)
        && (is_owner e.lease_owner lease.lease_owner
            && (gt e.lease_expires_at now && is_processing e.status)))

pub finalize_entry : Option String → ℕ → Outcome → Entry → Entry
finalize_entry error_message now outcome e = record e {
  error_message = error_message;
  lease_expires_at = none;
  lease_owner = none;
  processed_at = some now;
  status = outcome_status outcome;
}

pub count_outcome : Outcome → Job → Job
count_outcome outcome j = record j {
  added_feeds = j.added_feeds + added_increment outcome;
  failed_feeds = j.failed_feeds + failed_increment outcome;
  processed_feeds = j.processed_feeds + 1;
  skipped_feeds = j.skipped_feeds + skipped_increment outcome;
}

pub finalize_opml_import_entry : Option String → EntryLease → ℕ → Outcome → Import → Bool × Import
finalize_opml_import_entry error_message lease now outcome s =
    if any (is_fenced lease now) s.entries
      && (is_open s.job && ltb s.job.processed_feeds s.job.total_feeds)
    then (
      true,
      record {
        job = count_outcome outcome s.job;
        entries =
            update_entries (is_fenced lease now) (finalize_entry error_message now outcome)
              s.entries;
      },
    )
    else (false, s)

pub renew_entry : ℕ → Entry → Entry
renew_entry expires e = record e { lease_expires_at = some expires }

-- The number of rows that an update meets is 1 where one does, since `id` is the primary key.
pub renew_opml_import_entry_lease : EntryLease → ℕ → ℕ → Import → Bool × Import
renew_opml_import_entry_lease lease now duration_ms s = (
  any (is_fenced lease now) s.entries,
  record s {
    entries =
        update_entries (is_fenced lease now) (renew_entry (add_milliseconds now duration_ms))
          s.entries;
  },
)

run_with_opml_import_entry_lease_heartbeat {ℓ} :
    {Result : Type ℓ}
    → EntryLease
    → List (Beat Import)
    → Option ℕ
    → Option Result
    → Import
    → Option (Bool × Result) × Import
run_with_opml_import_entry_lease_heartbeat lease =
    run_with_heartbeat (λ now. renew_opml_import_entry_lease lease now opml_import_entry_lease_ms)
