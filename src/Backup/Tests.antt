-- ===== src/Backup/Tests.antt =====
-- Three backups of one day, of which one is to stay.
use arctic_rss.Prelude.{
  ◌≤◌, ◌≡◌, ◌↔◌, refl, Bool, true, false, none, some, List, [], ◌∷◌, keep, length, min, map, Text,
  codes, text_eq, arith,
}
use arctic_rss.Backup.{
  BackupPruneRecord, BackupPruneDecision, is_standard_backup_id, valid_checksum,
  valid_nullable_checksum, timestamp_form, is_prune_safe_record, decide_pruning,
  evaluate_same_day_backup_pruning, text_ltb, superseded_by, decision,
}
use arctic_rss.Backup.Order.{count_newer}
use arctic_rss.Backup.Retention.{recovery_points, decide-eligible_iff}
use arctic_rss.Backup.Kept.{stays, recovery_points_kept}

abbrev sum : Text
sum = codes "0123456789abcdef0123456789abcdef0123456789abcdef0123456789abcdef"

abbrev point : Text → BackupPruneRecord
point id = record {
  backup_id = id;
  catalog_verified = true;
  database_sha256 = sum;
  globals_sha256 = none;
  hold = false;
  named_archive = false;
  off_host_acknowledgement = some (record {
    database_sha256 = sum;
    globals_sha256 = none;
    status = codes "verified";
    target_class = codes "s3";
    verified_at = codes "2026-01-02T10:00:00Z";
  });
}

abbrev morning : BackupPruneRecord
morning = point (codes "20260102T060000Z")

abbrev noon : BackupPruneRecord
noon = point (codes "20260102T120000Z")

abbrev held : BackupPruneRecord
held = record (point (codes "20260102T180000Z")) { hold = true }

abbrev records : List BackupPruneRecord
records = morning ∷ held ∷ noon ∷ []

abbrev is_date : Text → Bool
is_date t = true

abbrev decisions : List BackupPruneDecision
decisions = map (decide_pruning is_date 1 records) records

reported : evaluate_same_day_backup_pruning is_date 1 records ≡ some decisions
unfolding evaluate_same_day_backup_pruning
reported = refl

morning_superseded :
    decide_pruning is_date 1 records morning ≡ decision morning true (superseded_by noon.backup_id)
unfolding decide_pruning is_standard_backup_id timestamp_form valid_checksum valid_nullable_checksum
    is_prune_safe_record text_eq text_ltb
morning_superseded = refl

decide-eligible_iff_example : ((decide_pruning is_date 1 records morning).eligible ≡ true) ↔ (
    (is_prune_safe_record is_date morning ≡ true)
    × (1 ≤ count_newer morning.backup_id (recovery_points is_date records morning)))
decide-eligible_iff_example =
    decide-eligible_iff is_date 1 [] (held ∷ noon ∷ []) morning (omega arith)

recovery_points_kept_example :
    (decisions ≡ map (decide_pruning is_date 1 records) records)
    × (min 1 (length (recovery_points is_date records noon))
        ≤ length (keep (stays is_date 1 records) (recovery_points is_date records noon)))
recovery_points_kept_example = recovery_points_kept is_date 1 records decisions noon reported
