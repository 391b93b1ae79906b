-- ===== src/Backup/Kept.antt =====
-- How many backups of a day stay, if every eligible one is deleted.
use arctic_rss.Prelude.{
  ℕ, zero, suc, ◌≤◌, ◌≡◌, refl, ap, ◌∙◌, inl, inr, Bool, true, some, map, List, [], ◌∷◌, not, min,
  leb, ltb, keep, take, length, Text, text_eq, text_eq_refl, text_eq_sound, Bool-cases, arith, All,
}
use arctic_rss.Backup.{
  BackupPruneRecord, sort, text_ltb, is_prune_safe_record, same_day, decide_pruning,
  BackupPruneDecision, evaluate_same_day_backup_pruning,
}
use arctic_rss.Backup.Order.{
  IsDescending, sort-IsDescending, count_newer, length-keep-sort, length-sort, count_newer-AtMost,
  text_ltb_irrefl,
}
use arctic_rss.Backup.Retention.{has_id, recovery_points, decide_lem}

-- The records that fewer than `m` others of a list are newer than.
abbrev among_newest : ℕ → List BackupPruneRecord → BackupPruneRecord → Bool
among_newest m xs x = ltb (count_newer x.backup_id xs) m

length-keep_mono {ℓ} :
    {A : Type ℓ} (p q : A → Bool) (xs : List A)
    → ((a : A) → p a ≡ true → q a ≡ true)
    → length (keep p xs) ≤ length (keep q xs)
length-keep_mono p q [] h = omega arith
length-keep_mono p q (x ∷ xs) h = let le = length-keep_mono p q xs h in ground (arith, le, h x)

length-keep_same {ℓ} :
    {A : Type ℓ} (p q : A → Bool) (xs : List A)
    → All (λ a. p a ≡ q a) xs
    → length (keep p xs) ≡ length (keep q xs)
length-keep_same p q [] h = refl
length-keep_same p q (x ∷ xs) (h, hs) = ground (arith, length-keep_same p q xs hs, h)

count_newer-cons :
    (t : Text) (x : BackupPruneRecord) (xs : List BackupPruneRecord)
    → count_newer t (x ∷ xs) ≤ suc (count_newer t xs)
count_newer-cons t x xs = ground arith

descending_newest :
    (m : ℕ) (xs : List BackupPruneRecord)
    → IsDescending xs
    → min m (length xs) ≤ length (keep (among_newest m xs) xs)
descending_newest m [] d = omega arith
descending_newest zero (x ∷ xs) d = omega arith
descending_newest (suc m) (x ∷ xs) (all, d) =
    let first : count_newer x.backup_id (x ∷ xs) ≡ 0 =
      count_newer-AtMost x.backup_id (x ∷ xs) (text_ltb_irrefl x.backup_id, all) in
    let step =
      length-keep_mono (among_newest m xs) (among_newest (suc m) (x ∷ xs)) xs
        (λ y h. ground (arith, count_newer-cons y.backup_id x xs, h)) in
    let rest = descending_newest m xs d in
    let head : among_newest (suc m) (x ∷ xs) x ≡ true = ground (arith, first) in
    rw head (omega (arith, step, rest))

-- At least the count, or all, of a list are among its newest.
newest_count :
    (m : ℕ) (xs : List BackupPruneRecord) → min m (length xs) ≤ length (keep (among_newest m xs) xs)
newest_count m xs =
    let sorted = descending_newest m (sort xs) (sort-IsDescending xs) in
    let same = length-keep_mono (among_newest m (sort xs)) (among_newest m xs) xs (λ y h.
      let e = length-keep-sort (λ (x : BackupPruneRecord). text_ltb y.backup_id x.backup_id) xs in
      rw e at h) in
    omega (arith, sorted, length-sort xs, length-keep-sort (among_newest m (sort xs)) xs, same)

module _ (is_date : Text → Bool) where
  abbrev pub stays : ℕ → List BackupPruneRecord → BackupPruneRecord → Bool
  stays maximum records x = not (decide_pruning is_date maximum records x).eligible

  points-All :
      (r : BackupPruneRecord) (xs : List BackupPruneRecord)
      → All
          (λ x. (is_prune_safe_record is_date x ≡ true) × (same_day r x ≡ true))
          (recovery_points is_date xs r)
  points-All r [] = tt
  points-All r (x ∷ xs) = elim (Bool-cases (same_day r x)) [
    | inl day ↦ elim (Bool-cases (is_prune_safe_record is_date x)) [
      | inl safe ↦ rw (day, safe) ((safe, day), points-All r xs)
      | inr unsafe ↦ rw (day, unsafe) (points-All r xs)
    ]
    | inr other ↦ rw other (points-All r xs)
  ]

  same_points :
      (records : List BackupPruneRecord) (r x : BackupPruneRecord)
      → same_day r x ≡ true
      → recovery_points is_date records x ≡ recovery_points is_date records r
  same_points records r x day =
      let e = text_eq_sound (take 8 x.backup_id) (take 8 r.backup_id) day in
      ap
        (λ prefix.
          keep (is_prune_safe_record is_date)
            (keep (λ (c : BackupPruneRecord). text_eq (take 8 c.backup_id) prefix) records))
        e

  points-decided :
      (maximum : ℕ) (records : List BackupPruneRecord) (r : BackupPruneRecord)
      → 1 ≤ maximum
      → (ys xs : List BackupPruneRecord) → recovery_points is_date records r ≡ ys
      → All (λ x. (is_prune_safe_record is_date x ≡ true) × (same_day r x ≡ true)) xs
      → ((t : Text) → has_id t xs ≡ true → has_id t ys ≡ true)
      → All (λ x. among_newest maximum ys x ≡ stays maximum records x) xs
  points-decided maximum records r le ys [] e all there = tt
  points-decided maximum records r le ys (x ∷ xs) e ((safe, day), all) there =
      let same = same_points records r x day ∙ e in
      let here = there x.backup_id (ground (arith, text_eq_refl x.backup_id)) in
      let decided = decide_lem is_date maximum records x le safe (rw same here) in
      let decided' : (decide_pruning is_date maximum records x).eligible
          ≡ leb maximum (count_newer x.backup_id ys) =
        rw same at decided in
      (
        ground (arith, decided'),
        points-decided maximum records r le ys xs e all (λ t h. there t (ground (arith, h))),
      )

  evaluate-eq-some :
      (maximum : ℕ) (records : List BackupPruneRecord) {decisions : List BackupPruneDecision}
      → evaluate_same_day_backup_pruning is_date maximum records ≡ some decisions
      → (1 ≤ maximum) × (decisions ≡ map (decide_pruning is_date maximum records) records)
  unfolding evaluate_same_day_backup_pruning
  evaluate-eq-some maximum records h = (ground arith, ground arith)

  -- A report decides on each record in turn; if every backup that it calls eligible is deleted, then of
  -- the day of any record there stay as many recovery points as the retention count names, or all of
  -- them where there are fewer.
  pub recovery_points_kept :
      (maximum : ℕ) (records : List BackupPruneRecord) (decisions : List BackupPruneDecision)
      (r : BackupPruneRecord)
      → evaluate_same_day_backup_pruning is_date maximum records ≡ some decisions
      → (decisions ≡ map (decide_pruning is_date maximum records) records)
        × (min maximum (length (recovery_points is_date records r))
            ≤ length (keep (stays maximum records) (recovery_points is_date records r)))
  recovery_points_kept maximum records decisions r report =
      let (le, each) = evaluate-eq-some maximum records report in
      let points = recovery_points is_date records r in
      let decided =
        points-decided maximum records r le points points refl (points-All r records) (λ t h. h) in
      (
        each,
        omega (
          arith,
          newest_count maximum points,
          length-keep_same (among_newest maximum points) (stays maximum records) points decided,
        ),
      )
