-- ===== src/Lease/Opml/Tests.antt =====
-- An import of two feeds.
use arctic_rss.Prelude.{
  ℕ, String, ◌≡◌, refl, Bool, true, false, Option, none, some, List, [], ◌∷◌, arith,
}
use arctic_rss.Lease.Time.{add_milliseconds}
use arctic_rss.Lease.Opml.{
  Entry, EntryStatus, Outcome, Import, JobStatus, EntryLease, has_id, update_entries, is_fenced,
  first_by_sequence, lease_of, is_next, is_open, is_claimable, finalize_entry, claim_entry,
  renew_entry, count_outcome, claim_opml_import_entry, finalize_opml_import_entry,
  renew_opml_import_entry_lease,
}
use arctic_rss.Lease.Opml.Claim.{IsLeast, claim_takes_first}
use arctic_rss.Lease.Opml.Counters.{IsConsistent}
use arctic_rss.Lease.Opml.Finalize.{late_worker_fenced}
use arctic_rss.Lease.Opml.Runs.{
  Operation, claim, finalize, renew, operate, operate_all, operate_all-IsConsistent,
}

abbrev fresh : String → ℕ → Entry
fresh id sequence = record {
  id = id;
  attempt = 0;
  error_message = none;
  folder_name = none;
  lease_expires_at = none;
  lease_owner = none;
  processed_at = none;
  processing_started_at = none;
  sequence = sequence;
  status = EntryStatus.pending;
  title = "";
  xml_url = "";
}

abbrev upload : Import
upload = record {
  job = record {
    id = "job";
    status = JobStatus.pending;
    cancel_requested_at = none;
    total_feeds = 2;
    processed_feeds = 0;
    added_feeds = 0;
    skipped_feeds = 0;
    failed_feeds = 0;
  };
  entries = fresh "b" 2 ∷ fresh "a" 1 ∷ [];
}

abbrev nobody : String → Bool
nobody id = false

abbrev everybody : String → Bool
everybody id = true

abbrev first_claim : Option EntryLease × Import
first_claim = claim_opml_import_entry nobody "ann" 1000 2000 upload

abbrev lease_of_ann : EntryLease
lease_of_ann = record {
  attempt = 1;
  folder_name = none;
  id = "a";
  import_job_id = "job";
  lease_expires_at = 3000;
  lease_owner = "ann";
  sequence = 1;
  title = "";
  xml_url = "";
}

abbrev second_claim : Option EntryLease × Import
second_claim = claim_opml_import_entry nobody "bob" 3000 1000 first_claim.1

abbrev lease_of_bob : EntryLease
lease_of_bob = record lease_of_ann { attempt = 2; lease_expires_at = 4000; lease_owner = "bob" }

opml_leases : Unit {0}
unfolding claim_opml_import_entry finalize_opml_import_entry renew_opml_import_entry_lease is_fenced
    update_entries first_by_sequence lease_of is_open is_claimable finalize_entry claim_entry
    renew_entry count_outcome add_milliseconds operate operate_all
opml_leases = tt

claims :
    (first_claim.0 ≡ some lease_of_ann)
    × (second_claim.0 ≡ some lease_of_bob)
    × ((finalize_opml_import_entry none lease_of_ann 2000 Outcome.added first_claim.1).0 ≡ true)
    × ((finalize_opml_import_entry none lease_of_ann 3000 Outcome.added first_claim.1).0 ≡ false)
unfolding opml_leases
claims = (refl, refl, refl, refl)

claim_takes_first_example :
    (e : Entry) × IsLeast (is_next nobody 1000 upload.job) upload.entries e
    × (lease_of_ann ≡ lease_of "job" "ann" (add_milliseconds 1000 2000) e)
    × (first_claim.1.job ≡ upload.job)
    × (first_claim.1.entries
        ≡ update_entries
            (has_id e.id)
            (claim_entry "ann" 1000 (add_milliseconds 1000 2000))
            upload.entries)
unfolding opml_leases
claim_takes_first_example =
    claim_takes_first nobody "ann" 1000 2000 upload {lease = lease_of_ann} {s' = first_claim.1} refl

upload-IsConsistent : IsConsistent upload
upload-IsConsistent = record {
  nodup = (refl, (refl, tt));
  added = refl;
  skipped = refl;
  failed = refl;
  processed = refl;
  within = omega arith;
}

abbrev work : List Operation
work =
    claim nobody "ann" 1000 2000
    ∷ claim nobody "bob" 3000 1000
    ∷ finalize none lease_of_ann 3500 Outcome.added
    ∷ finalize none lease_of_bob 3600 Outcome.skipped
    ∷ []

counted : (operate_all work upload).job.skipped_feeds ≡ 1
unfolding opml_leases
counted = refl

operate_all-IsConsistent_example : IsConsistent (operate_all work upload)
operate_all-IsConsistent_example = operate_all-IsConsistent work upload upload-IsConsistent

abbrev later : List Operation
later = renew lease_of_bob 3100 5000 ∷ []

late_worker_fenced_example :
    (finalize_opml_import_entry
        (some "late")
        lease_of_ann
        3500
        Outcome.failed
        (operate_all later second_claim.1)
      ≡ (false, operate_all later second_claim.1))
    × (renew_opml_import_entry_lease lease_of_ann 3500 5000 (operate_all later second_claim.1)
        ≡ (false, operate_all later second_claim.1))
unfolding opml_leases
late_worker_fenced_example =
    late_worker_fenced [] later nobody nobody "ann" "bob" 1000 2000 3000 1000 upload
      {lease1 = lease_of_ann} {lease2 = lease_of_bob} {s1 = first_claim.1} {s2 = second_claim.1}
      (some "late") 3500 5000 Outcome.failed upload-IsConsistent refl refl refl
