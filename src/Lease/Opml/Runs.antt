-- ===== src/Lease/Opml/Runs.antt =====
-- What every run of claims, renewals and completions keeps of an import.
use arctic_rss.Prelude.{
  ℕ, ◌+◌, ◌<◌, String, ◌≡◌, refl, sym, ◌∙◌, Bool, true, Option, List, [], ◌∷◌, arith, ◌&&◌, ltb,
  inl, inr, Bool-cases, Option-cases, any, ltb→lt,
}
use arctic_rss.Lease.Time.{add_milliseconds}
use arctic_rss.Lease.Opml.Claim.{first_by_sequence-IsLeast}
use arctic_rss.Lease.Opml.{
  Entry, EntryStatus, Outcome, Import, has_id, update_entries, is_fenced, first_by_sequence,
  EntryLease, outcome_status, finalize_entry, count_outcome, claim_entry, renew_entry, is_claimable,
  is_next, claim_opml_import_entry, finalize_opml_import_entry, renew_opml_import_entry_lease,
  added_increment, failed_increment, skipped_increment, is_open,
}
use arctic_rss.Lease.Opml.Rows.{NodupIds, update_entries-NodupIds}
use arctic_rss.Lease.Opml.Counters.{
  is_added, is_skipped, is_failed, count_status, IsConsistent, IsFinalTest, bit, count-finalize,
  count-renew, count-claim,
}

-- The operations of the workers on one import, in any order.
pub data Operation : Type 0 where
  claim : (String → Bool) → String → ℕ → ℕ → Operation
  finalize : Option String → EntryLease → ℕ → Outcome → Operation
  renew : EntryLease → ℕ → ℕ → Operation

unfoldable pub operate : Operation → Import → Import
operate (claim locked owner now d) s = (claim_opml_import_entry locked owner now d s).1
operate (finalize m lease now o) s = (finalize_opml_import_entry m lease now o s).1
operate (renew lease now d) s = (renew_opml_import_entry_lease lease now d s).1

unfoldable pub operate_all : List Operation → Import → Import
operate_all [] s = s
operate_all (o ∷ os) s = operate_all os (operate o s)

-- Where an operation only leases entries, the counters stand.
leased-IsConsistent :
    (s : Import) (es : List Entry)
    → IsConsistent s
    → NodupIds es
    → ((test : EntryStatus → Bool)
        → IsFinalTest test
        → count_status test es ≡ count_status test s.entries)
    → IsConsistent (record s { entries = es })
leased-IsConsistent s es h d same = record {
  nodup = d;
  added = h.added ∙ sym (same is_added (refl, refl));
  skipped = h.skipped ∙ sym (same is_skipped (refl, refl));
  failed = h.failed ∙ sym (same is_failed (refl, refl));
  processed = h.processed;
  within = h.within;
}

claim_same_id :
    (owner : String) (now expires : ℕ) (e : Entry) → (claim_entry owner now expires e).id ≡ e.id
unfolding claim_entry
claim_same_id owner now expires e = refl

pub claim-IsConsistent :
    (locked : String → Bool) (owner : String) (now d : ℕ) (s : Import)
    → IsConsistent s
    → IsConsistent (claim_opml_import_entry locked owner now d s).1
unfolding claim_opml_import_entry
claim-IsConsistent locked owner now d s h =
    elim (Option-cases (first_by_sequence (is_next locked now s.job) s.entries)) [
      | inl nobody ↦ rw (nobody, claim_opml_import_entry) h
      | inr (e, found) ↦
          let first = first_by_sequence-IsLeast (is_next locked now s.job) s.entries found in
          let free : is_claimable now e ≡ true = ground (arith, first.meets) in
          let until = add_milliseconds now d in
          rw (found, claim_opml_import_entry)
            (leased-IsConsistent s
              (update_entries (has_id e.id) (claim_entry owner now until) s.entries) h
              (update_entries-NodupIds (has_id e.id) (claim_entry owner now until)
                (claim_same_id owner now until) s.entries h.nodup)
              (λ test f. count-claim test f owner now until e s.entries h.nodup first.listed free))
    ]

renew-IsConsistent :
    (lease : EntryLease) (now d : ℕ) (s : Import)
    → IsConsistent s
    → IsConsistent (renew_opml_import_entry_lease lease now d s).1
unfolding renew_opml_import_entry_lease renew_entry
renew-IsConsistent lease now d s h =
    let until = add_milliseconds now d in
    leased-IsConsistent s (update_entries (is_fenced lease now) (renew_entry until) s.entries) h
      (update_entries-NodupIds (is_fenced lease now) (renew_entry until) (λ _. refl) s.entries
        h.nodup)
      (λ test f. count-renew test f lease now until s.entries)

increments :
    (o : Outcome)
    → (added_increment o ≡ bit (is_added (outcome_status o)))
      × (skipped_increment o ≡ bit (is_skipped (outcome_status o)))
      × (failed_increment o ≡ bit (is_failed (outcome_status o)))
      × (added_increment o + skipped_increment o + failed_increment o ≡ 1)
increments Outcome.added = (refl, refl, refl, refl)
increments Outcome.skipped = (refl, refl, refl, refl)
increments Outcome.failed = (refl, refl, refl, refl)

finalized-IsConsistent :
    (m : Option String) (lease : EntryLease) (now : ℕ) (o : Outcome) (s : Import)
    → IsConsistent s
    → any (is_fenced lease now) s.entries ≡ true
    → s.job.processed_feeds < s.job.total_feeds
    → IsConsistent (record {
      job = count_outcome o s.job;
      entries = update_entries (is_fenced lease now) (finalize_entry m now o) s.entries;
    })
unfolding count_outcome finalize_entry
finalized-IsConsistent m lease now o s h hit below =
    let (a, k, f, one) = increments o in
    let count = λ (test : EntryStatus → Bool) (t : IsFinalTest test).
      count-finalize test t lease now now m o s.entries h.nodup hit in
    record {
      nodup =
          update_entries-NodupIds (is_fenced lease now) (finalize_entry m now o) (λ _. refl)
            s.entries h.nodup;
      added = omega (arith, h.added, count is_added (refl, refl), a);
      skipped = omega (arith, h.skipped, count is_skipped (refl, refl), k);
      failed = omega (arith, h.failed, count is_failed (refl, refl), f);
      processed = omega (arith, h.processed, one);
      within = omega arith;
    }

finalize-IsConsistent :
    (m : Option String) (lease : EntryLease) (now : ℕ) (o : Outcome) (s : Import)
    → IsConsistent s
    → IsConsistent (finalize_opml_import_entry m lease now o s).1
unfolding finalize_opml_import_entry
finalize-IsConsistent m lease now o s h =
    elim (Bool-cases (
      any (is_fenced lease now) s.entries
      && (is_open s.job && ltb s.job.processed_feeds s.job.total_feeds))) [
        | inr n ↦ rw n h
        | inl y ↦ rw y (
            finalized-IsConsistent m lease now o s h (ground arith)
              (ltb→lt s.job.processed_feeds s.job.total_feeds (ground arith)))
      ]

-- Whatever the workers of an import do, in any order and at any times, late ones included: its
-- counters count every entry that has ended once, by how it ended, their sum is the number of
-- processed entries, and that stays within the total.
pub operate_all-IsConsistent :
    (os : List Operation) (s : Import) → IsConsistent s → IsConsistent (operate_all os s)
unfolding operate_all operate
operate_all-IsConsistent [] s h = h
operate_all-IsConsistent (claim locked owner now d ∷ os) s h =
    operate_all-IsConsistent os _ (claim-IsConsistent locked owner now d s h)
operate_all-IsConsistent (finalize m lease now o ∷ os) s h =
    operate_all-IsConsistent os _ (finalize-IsConsistent m lease now o s h)
operate_all-IsConsistent (renew lease now d ∷ os) s h =
    operate_all-IsConsistent os _ (renew-IsConsistent lease now d s h)
