-- ===== src/Backup/Retention.antt =====
-- Which backups are eligible for pruning.
use arctic_rss.Prelude.{
  ℕ, zero, suc, ◌≤◌, ◌≡◌, refl, ◌↔◌, inl, inr, Bool, true, false, some, List, [], ◌∷◌, ◌++◌, leb,
  ltb, any, keep, take, Text, text_eq, text_eq_refl, Bool-cases, arith, le→leb, leb→le, lt→ltb,
}
use arctic_rss.Backup.{
  BackupPruneRecord, insert, sort, find_index, text_ltb, is_prune_safe_record, same_day,
  same_day_records, place, decide_pruning,
}
use arctic_rss.Backup.Order.{
  IsDescending, sort-IsDescending, count_newer, length-keep-sort, find_index-count_newer,
  find_newer-IsSome,
}

abbrev pub has_id : Text → List BackupPruneRecord → Bool
has_id t xs = any (λ (x : BackupPruneRecord). text_eq x.backup_id t) xs

has_id-insert :
    (t : Text) (r : BackupPruneRecord) (xs : List BackupPruneRecord)
    → has_id t (insert r xs) ≡ has_id t (r ∷ xs)
unfolding insert
has_id-insert t r [] = refl
has_id-insert t r (x ∷ xs) = ground (arith, has_id-insert t r xs)

has_id-sort : (t : Text) (xs : List BackupPruneRecord) → has_id t (sort xs) ≡ has_id t xs
unfolding sort
has_id-sort t [] = refl
has_id-sort t (x ∷ xs) = ground (arith, has_id-insert t x (sort xs), has_id-sort t xs)

has_id-keep :
    (p q : BackupPruneRecord → Bool) (r : BackupPruneRecord) (before after : List BackupPruneRecord)
    → p r ≡ true
    → q r ≡ true
    → has_id r.backup_id (keep p (keep q (before ++ r ∷ after))) ≡ true
has_id-keep p q r [] after h k = ground (arith, h, k, text_eq_refl r.backup_id)
has_id-keep p q r (x ∷ before) after h k = ground (arith, has_id-keep p q r before after h k)

find_index-has_id :
    (t : Text) (xs : List BackupPruneRecord)
    → has_id t xs ≡ true
    → (i : ℕ) × (find_index t xs ≡ some i)
unfolding find_index
find_index-has_id t [] h = cc
find_index-has_id t (x ∷ xs) h = elim (Bool-cases (text_eq x.backup_id t)) [
  | inl same ↦ (0, rw same refl)
  | inr other ↦ let (i, e) = find_index-has_id t xs (ground arith) in (suc i, rw (other, e) refl)
]

module _ (is_date : Text → Bool) where
  -- A found record is eligible from the position on that the retention count names.
  place_lem :
      (maximum : ℕ) (r : BackupPruneRecord) (xs : List BackupPruneRecord) (i : ℕ)
      → 1 ≤ maximum
      → IsDescending xs
      → find_index r.backup_id xs ≡ some i
      → (place is_date maximum r xs).eligible ≡ leb maximum i
  unfolding place
  place_lem maximum r xs zero le d e = rw (place, e, lt→ltb 0 maximum le) (ground arith)
  place_lem maximum r xs (suc n) le d e = elim (Bool-cases (ltb (suc n) maximum)) [
    | inl early ↦ rw (place, e, early) (ground arith)
    | inr late ↦
        let (found, f) = find_newer-IsSome r.backup_id xs n d e refl in
        rw (place, e, late, f) (ground arith)
  ]

  decide-safe :
      (maximum : ℕ) (records : List BackupPruneRecord) (r : BackupPruneRecord)
      → is_prune_safe_record is_date r ≡ true
      → decide_pruning is_date maximum records r
        ≡ place is_date maximum r (same_day_records is_date records r)
  unfolding decide_pruning is_prune_safe_record
  decide-safe maximum records r h = ground arith

  decide-unsafe :
      (maximum : ℕ) (records : List BackupPruneRecord) (r : BackupPruneRecord)
      → is_prune_safe_record is_date r ≡ false
      → (decide_pruning is_date maximum records r).eligible ≡ false
  unfolding decide_pruning is_prune_safe_record
  decide-unsafe maximum records r h = ground arith

  -- The backups of the day of a record that are safe to rely on.
  abbrev pub recovery_points : List BackupPruneRecord → BackupPruneRecord → List BackupPruneRecord
  recovery_points records r = keep (is_prune_safe_record is_date) (keep (same_day r) records)

  pub decide_lem :
      (maximum : ℕ) (records : List BackupPruneRecord) (r : BackupPruneRecord)
      → 1 ≤ maximum
      → is_prune_safe_record is_date r ≡ true
      → has_id r.backup_id (recovery_points records r) ≡ true
      → (decide_pruning is_date maximum records r).eligible
        ≡ leb maximum (count_newer r.backup_id (recovery_points records r))
  unfolding same_day_records
  decide_lem maximum records r le safe here =
      let points = recovery_points records r in
      let t = r.backup_id in
      let (i, e) = find_index-has_id t (sort points) (rw (has_id-sort t points) here) in
      let d = sort-IsDescending points in
      let same = find_index-count_newer t (sort points) d e in
      let counts = length-keep-sort (λ (x : BackupPruneRecord). text_ltb t x.backup_id) points in
      rw (
        decide-safe maximum records r safe,
        place_lem maximum r (sort points) i le d e,
        same,
        counts,
      )

  listed :
      (before after : List BackupPruneRecord) (r : BackupPruneRecord)
      → is_prune_safe_record is_date r ≡ true
      → has_id r.backup_id (recovery_points (before ++ r ∷ after) r) ≡ true
  listed before after r safe =
      has_id-keep (is_prune_safe_record is_date) (same_day r) r before after safe
        (text_eq_refl (take 8 r.backup_id))

  -- With a retention count of at least one, a record of the list is eligible for pruning exactly if it
  -- is safe to rely on itself and the count is reached by the newer recovery points of its day.
  pub decide-eligible_iff :
      (maximum : ℕ) (before after : List BackupPruneRecord) (r : BackupPruneRecord)
      → 1 ≤ maximum
      → let records = before ++ r ∷ after in
        ((decide_pruning is_date maximum records r).eligible ≡ true) ↔ (
          (is_prune_safe_record is_date r ≡ true)
          × (maximum ≤ count_newer r.backup_id (recovery_points records r)))
  decide-eligible_iff maximum before after r le =
      let records = before ++ r ∷ after in
      elim (Bool-cases (is_prune_safe_record is_date r)) [
        | inl safe ↦
            let e = decide_lem maximum records r le safe (listed before after r safe) in
            (λ h. (safe, leb→le _ _ (rw e at h)), λ h. rw e (le→leb _ _ h.1))
        | inr unsafe ↦
            let e = decide-unsafe maximum records r unsafe in (λ h. absurd cc, λ h. absurd cc)
      ]
