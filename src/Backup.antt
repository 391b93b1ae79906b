-- ===== src/Backup.antt =====
-- Which backups may be pruned (src/lib/backup-pruning.ts). The records are the argument, and the
-- report says of each whether it may go, and why. Whether `Date.parse` accepts a text is an argument.
-- Identifiers that are compared consist of digits, `T` and `Z` at fixed places, where `localeCompare`
-- and `>` are both the order of the code units.
pub mod Order
pub mod Retention
pub mod Kept
mod Tests
use arctic_rss.Prelude.{
  ℕ, zero, suc, ◌+◌, Bool, true, false, Option, none, some, List, [], ◌∷◌, ◌&&◌, ◌||◌, not,
  if◌then◌else◌, leb, ltb, ◌==◌, all, any, keep, take, length, map, Text, codes, text_eq, is_digit,
  is_lower, is_upper, is_space,
}

pub record Acknowledgement : Type 0 where
  pub database_sha256 : Text
  pub globals_sha256 : Option Text
  pub status : Text
  pub target_class : Text
  pub verified_at : Text

pub record BackupPruneRecord : Type 0 where
  pub backup_id : Text
  pub catalog_verified : Bool
  pub database_sha256 : Text
  pub globals_sha256 : Option Text
  pub hold : Bool
  pub named_archive : Bool
  pub off_host_acknowledgement : Option Acknowledgement

pub data Reason : Type 0 where
  not_standard named_recovery_archive on_hold no_acknowledgement no_catalog : Reason
  recovery_points_retained no_replacement : Reason
  superseded_by : Text → Reason

pub record BackupPruneDecision : Type 0 where
  pub backup_id : Text
  pub eligible : Bool
  pub reason : Reason

-- A pattern of fixed length, as one test for each character.
matches : List (ℕ → Bool) → Text → Bool
matches [] [] = true
matches (test ∷ tests) (c ∷ s) = test c && matches tests s
matches _ _ = false

times : ℕ → (ℕ → Bool) → List (ℕ → Bool) → List (ℕ → Bool)
times zero test tests = tests
times (suc n) test tests = test ∷ times n test tests

is_char : ℕ → ℕ → Bool
is_char a b = a == b

-- `/^20\d{6}T\d{6}Z$/`
unfoldable pub is_standard_backup_id : Text → Bool
unfolding matches times is_char
is_standard_backup_id = matches (
    is_char b'2'
    ∷ is_char b'0'
    ∷ times 6 is_digit (is_char b'T' ∷ times 6 is_digit (is_char b'Z' ∷ [])))

is_hex : ℕ → Bool
is_hex c = is_digit c || ((leb b'a' c && leb c b'f') || (leb b'A' c && leb c b'F'))

unfoldable pub valid_checksum : Text → Bool
unfolding matches times is_hex
valid_checksum = matches (times 64 is_hex [])

unfoldable pub valid_nullable_checksum : Option Text → Bool
unfolding valid_checksum
valid_nullable_checksum none = true
valid_nullable_checksum (some t) = valid_checksum t

-- The form of a timestamp, `/^\d{4}-\d{2}-\d{2}T\d{2}:\d{2}:\d{2}Z$/`.
unfoldable pub timestamp_form : Text → Bool
unfolding matches times is_char
timestamp_form =
    let two = times 2 is_digit in
    matches (
      times 4 is_digit (
        is_char b'-'
        ∷ two (
            is_char b'-'
            ∷ two (
                is_char b'T' ∷ two (is_char b':' ∷ two (is_char b':' ∷ two (is_char b'Z' ∷ [])))))))

-- `toLowerCase` on the letters; the text it is compared with is hexadecimal, and no other character
-- becomes a hexadecimal digit.
to_lower : ℕ → ℕ
to_lower c = if is_upper c then c + 32 else c

same_nullable : Option Text → Option Text → Bool
same_nullable none none = true
same_nullable (some a) (some b) = text_eq a b
same_nullable _ _ = false

-- `<` of two texts.
unfoldable pub text_ltb : Text → Text → Bool
text_ltb [] [] = false
text_ltb [] (b ∷ t) = true
text_ltb (a ∷ s) [] = false
text_ltb (a ∷ s) (b ∷ t) = ltb a b || (a == b && text_ltb s t)

-- A stable sort by descending identifier.
pub insert : BackupPruneRecord → List BackupPruneRecord → List BackupPruneRecord
insert r [] = r ∷ []
insert r (x ∷ xs) =
    let rest = insert r xs in if text_ltb r.backup_id x.backup_id then x ∷ rest else r ∷ x ∷ xs

pub sort : List BackupPruneRecord → List BackupPruneRecord
unfolding insert
sort [] = []
sort (x ∷ xs) = insert x (sort xs)

pub find_index : Text → List BackupPruneRecord → Option ℕ
find_index t [] = none
find_index t (x ∷ xs) =
    let rest = find_index t xs in
    if text_eq x.backup_id t then some 0 else elim rest [ none ↦ none | some i ↦ some (suc i) ]

pub find_newer : Text → List BackupPruneRecord → Option BackupPruneRecord
find_newer t [] = none
find_newer t (x ∷ xs) =
    let rest = find_newer t xs in if text_ltb t x.backup_id then some x else rest

abbrev pub decision : BackupPruneRecord → Bool → Reason → BackupPruneDecision
decision r eligible reason = record {
  backup_id = r.backup_id;
  eligible = eligible;
  reason = reason;
}

-- The day of an identifier is its first eight characters.
abbrev pub same_day : BackupPruneRecord → BackupPruneRecord → Bool
same_day r candidate = text_eq (take 8 candidate.backup_id) (take 8 r.backup_id)

module _ (is_date : Text → Bool) where
  acknowledges : BackupPruneRecord → Acknowledgement → Bool
  unfolding is_space to_lower same_nullable
  acknowledges r a =
      text_eq a.status (codes "verified")
      && (any (λ c. not (is_space c)) a.target_class
          && ((timestamp_form a.verified_at && is_date a.verified_at)
              && (valid_checksum r.database_sha256
                  && (text_eq (map to_lower a.database_sha256) (map to_lower r.database_sha256)
                      && (valid_nullable_checksum r.globals_sha256
                          && same_nullable a.globals_sha256 r.globals_sha256)))))

  pub has_valid_acknowledgement : BackupPruneRecord → Bool
  unfolding acknowledges
  has_valid_acknowledgement r = elim r.off_host_acknowledgement [
    | none ↦ false
    | some a ↦ acknowledges r a
  ]

  unfoldable pub is_prune_safe_record : BackupPruneRecord → Bool
  unfolding has_valid_acknowledgement
  is_prune_safe_record r =
      is_standard_backup_id r.backup_id
      && (not r.named_archive
          && (not r.hold && (r.catalog_verified && has_valid_acknowledgement r)))

  pub same_day_records : List BackupPruneRecord → BackupPruneRecord → List BackupPruneRecord
  unfolding sort
  same_day_records records r = sort (keep is_prune_safe_record (keep (same_day r) records))

  pub place : ℕ → BackupPruneRecord → List BackupPruneRecord → BackupPruneDecision
  unfolding find_index find_newer
  place maximum r sorted = elim (find_index r.backup_id sorted) [
    | none ↦ decision r false recovery_points_retained
    | some position ↦
        if ltb position maximum
        then decision r false recovery_points_retained
        else elim (find_newer r.backup_id (take position sorted)) [
          | none ↦ decision r false no_replacement
          | some replacement ↦ decision r true (superseded_by replacement.backup_id)
        ]
  ]

  unfoldable pub decide_pruning :
      ℕ → List BackupPruneRecord → BackupPruneRecord → BackupPruneDecision
  unfolding same_day_records place
  decide_pruning maximum records r =
      if not (is_standard_backup_id r.backup_id)
      then decision r false not_standard
      else if r.named_archive
      then decision r false named_recovery_archive
      else if r.hold
      then decision r false on_hold
      else if not (has_valid_acknowledgement r)
      then decision r false no_acknowledgement
      else if not r.catalog_verified
      then decision r false no_catalog
      else place maximum r (same_day_records records r)

  -- A retention count of zero throws.
  unfoldable pub evaluate_same_day_backup_pruning :
      ℕ → List BackupPruneRecord → Option (List BackupPruneDecision)
  unfolding decide_pruning
  evaluate_same_day_backup_pruning maximum records =
      if ltb maximum 1 then none else some (map (decide_pruning maximum records) records)
