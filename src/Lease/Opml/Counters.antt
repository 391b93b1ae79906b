-- ===== src/Lease/Opml/Counters.antt =====
-- The counters of an import job, against its entries.
use arctic_rss.Prelude.{
  ℕ, suc, ◌+◌, ◌≤◌, String, ◌≡◌, refl, ap, Bool, true, false, Option, List, [], ◌∷◌, arith, inl,
  inr, Bool-cases, if◌then◌else◌, any, All,
}
use mathlib.Core.List.{Memᴰ}
use arctic_rss.Lease.Opml.{
  Entry, EntryStatus, Outcome, Import, has_id, update_entries, is_fenced, EntryLease,
  outcome_status, finalize_entry, claim_entry, renew_entry, is_claimable,
}
use arctic_rss.Lease.Opml.Rows.{NodupIds, update_entries_miss, is_fenced_once, only_with_id}

-- The tests of the three final statuses.
abbrev pub is_added : EntryStatus → Bool
is_added EntryStatus.added = true
is_added _ = false

abbrev pub is_skipped : EntryStatus → Bool
is_skipped EntryStatus.skipped = true
is_skipped _ = false

abbrev pub is_failed : EntryStatus → Bool
is_failed EntryStatus.failed = true
is_failed _ = false

abbrev pub count_status : (EntryStatus → Bool) → List Entry → ℕ
count_status test [] = 0
count_status test (e ∷ es) =
    if test e.status then suc (count_status test es) else count_status test es

-- Every entry that has ended is counted once, and the sum of the counters is the number of entries
-- processed, which stays within the total.
pub record IsConsistent (s : Import) : Type 0 where
  pub nodup : NodupIds s.entries
  pub added : s.job.added_feeds ≡ count_status is_added s.entries
  pub skipped : s.job.skipped_feeds ≡ count_status is_skipped s.entries
  pub failed : s.job.failed_feeds ≡ count_status is_failed s.entries
  pub processed :
      s.job.processed_feeds ≡ s.job.added_feeds + s.job.skipped_feeds + s.job.failed_feeds
  pub within : s.job.processed_feeds ≤ s.job.total_feeds

-- A test of the final statuses.
abbrev pub IsFinalTest : (EntryStatus → Bool) → Type 0
IsFinalTest test = (test EntryStatus.pending ≡ false) × (test EntryStatus.processing ≡ false)

abbrev pub bit : Bool → ℕ
bit true = 1
bit false = 0

module _ (test : EntryStatus → Bool) (final : IsFinalTest test) where
  -- A change that only leases entries, which have not ended, keeps the count.
  count-lease :
      (meets : Entry → Bool) (change : Entry → Entry) (es : List Entry)
      → All (λ e. meets e ≡ true → test e.status ≡ false) es
      → All (λ e. meets e ≡ true → test (change e).status ≡ false) es
      → count_status test (update_entries meets change es) ≡ count_status test es
  unfolding update_entries
  count-lease meets change [] h k = refl
  count-lease meets change (e ∷ es) (h, hs) (k, ks) = elim (Bool-cases (meets e)) [
    | inl y ↦ rw (y, h y, k y) (count-lease meets change es hs ks)
    | inr n ↦
        rw n (ap (λ k. if test e.status then suc k else k) (count-lease meets change es hs ks))
  ]

  fenced_unended :
      (lease : EntryLease) (now : ℕ) (e : Entry)
      → is_fenced lease now e ≡ true
      → test e.status ≡ false
  unfolding is_fenced
  fenced_unended lease now e h =
      let busy : e.status ≡ EntryStatus.processing = ground arith in rw busy final.1

  -- The entry that the fence meets ends by this outcome, and is counted once more.
  pub count-finalize :
      (lease : EntryLease) (now t : ℕ) (m : Option String) (o : Outcome) (es : List Entry)
      → NodupIds es
      → any (is_fenced lease now) es ≡ true
      → count_status test (update_entries (is_fenced lease now) (finalize_entry m t o) es)
        ≡ count_status test es + bit (test (outcome_status o))
  unfolding update_entries finalize_entry
  count-finalize lease now t m o [] d h = cc
  count-finalize lease now t m o (e ∷ es) (fresh, d) h = elim (Bool-cases (is_fenced lease now e)) [
    | inl y ↦
        let rest =
          update_entries_miss (is_fenced lease now) (finalize_entry m t o) es
            (is_fenced_once lease now e es y fresh) in
        ground (arith, y, rest, fenced_unended lease now e y)
    | inr n ↦ ground (arith, n, count-finalize lease now t m o es d)
  ]

  fenced-All :
      (lease : EntryLease) (now : ℕ) (es : List Entry)
      → All (λ e. is_fenced lease now e ≡ true → test e.status ≡ false) es
  fenced-All lease now [] = tt
  fenced-All lease now (e ∷ es) = (fenced_unended lease now e, fenced-All lease now es)

  -- A renewal keeps the status.
  pub count-renew :
      (lease : EntryLease) (now expires : ℕ) (es : List Entry)
      → count_status test (update_entries (is_fenced lease now) (renew_entry expires) es)
        ≡ count_status test es
  unfolding renew_entry
  count-renew lease now expires es =
      count-lease (is_fenced lease now) (renew_entry expires) es (fenced-All lease now es)
        (fenced-All lease now es)

  claimable_unended : (now : ℕ) (e : Entry) → is_claimable now e ≡ true → test e.status ≡ false
  unfolding is_claimable
  claimable_unended now e h = ground arith

  claimed_unended :
      (id owner : String) (now expires : ℕ) (es : List Entry)
      → All (λ e. has_id id e ≡ true → test (claim_entry owner now expires e).status ≡ false) es
  unfolding claim_entry
  claimed_unended id owner now expires [] = tt
  claimed_unended id owner now expires (e ∷ es) =
      ((λ _. final.1), claimed_unended id owner now expires es)

  pub count-claim :
      (owner : String) (now expires : ℕ) (e : Entry) (es : List Entry)
      → NodupIds es
      → Memᴰ e es
      → is_claimable now e ≡ true
      → count_status test (update_entries (has_id e.id) (claim_entry owner now expires) es)
        ≡ count_status test es
  count-claim owner now expires e es d m h =
      count-lease (has_id e.id) (claim_entry owner now expires) es
        (only_with_id (λ f. test f.status ≡ false) e es d m (claimable_unended now e h))
        (claimed_unended e.id owner now expires es)
