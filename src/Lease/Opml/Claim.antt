-- ===== src/Lease/Opml/Claim.antt =====
-- Which entry of an import a claim takes.
use arctic_rss.Prelude.{
  ℕ, ◌≤◌, String, ◌≡◌, refl, Bool, true, false, none, some, List, [], ◌∷◌, arith, leb, inl, inr,
  Bool-cases, Option-cases, any, All, subst, leb→le, ◌↔◌,
}
use mathlib.Core.List.{Memᴰ}
use arctic_rss.Lease.Time.{add_milliseconds}
use arctic_rss.Lease.Opml.{
  Entry, Import, EntryLease, has_id, update_entries, first_by_sequence, lease_of, claim_entry,
  is_next, claim_opml_import_entry,
}

-- An entry that meets the test and has the least sequence of those that do.
pub record IsLeast (test : Entry → Bool) (es : List Entry) (e : Entry) : Type 0 where
  pub listed : Memᴰ e es
  pub meets : test e ≡ true
  pub least : All (λ f. test f ≡ true → e.sequence ≤ f.sequence) es

module _ (test : Entry → Bool) where
  All-weaken :
      {m n : ℕ} (es : List Entry)
      → m ≤ n
      → All (λ f. test f ≡ true → n ≤ f.sequence) es
      → All (λ f. test f ≡ true → m ≤ f.sequence) es
  All-weaken [] le h = tt
  All-weaken (f ∷ es) le (h, hs) = ((λ y. omega (arith, h y)), All-weaken es le hs)

  All-vacuous :
      (n : ℕ) (es : List Entry) → any test es ≡ false → All (λ f. test f ≡ true → n ≤ f.sequence) es
  All-vacuous n [] h = tt
  All-vacuous n (f ∷ es) h = ((λ y. absurd (ground arith)), All-vacuous n es (ground arith))

  first-none : (es : List Entry) → first_by_sequence test es ≡ none → any test es ≡ false
  unfolding first_by_sequence
  first-none [] h = refl
  first-none (e ∷ es) h = ground (arith, first-none es)

  none-of_any : (es : List Entry) → any test es ≡ false → first_by_sequence test es ≡ none
  unfolding first_by_sequence
  none-of_any [] h = refl
  none-of_any (e ∷ es) h = ground (arith, none-of_any es)

  head-IsLeast :
      (f : Entry) (es : List Entry)
      → test f ≡ true
      → All (λ g. test g ≡ true → f.sequence ≤ g.sequence) es
      → IsLeast test (f ∷ es) f
  head-IsLeast f es y h = record {
    listed = Memᴰ.head refl;
    meets = y;
    least = ((λ _. omega arith), h);
  }

  tail-IsLeast :
      (f g : Entry) (es : List Entry)
      → IsLeast test es g
      → (test f ≡ true → g.sequence ≤ f.sequence)
      → IsLeast test (f ∷ es) g
  tail-IsLeast f g es h le = record {
    listed = Memᴰ.tail h.listed;
    meets = h.meets;
    least = (le, h.least);
  }

  pub first_by_sequence-IsLeast :
      (es : List Entry) {e : Entry} → first_by_sequence test es ≡ some e → IsLeast test es e
  unfolding first_by_sequence
  first_by_sequence-IsLeast [] h = cc
  first_by_sequence-IsLeast (f ∷ es) {e} h = elim (Bool-cases (test f)) [
    | inr n ↦
        tail-IsLeast f e es (first_by_sequence-IsLeast es {e = e} (ground arith))
          (λ y. absurd (ground arith))
    | inl y ↦ elim (Option-cases (first_by_sequence test es)) [
      | inl nobody ↦
          let same : f ≡ e = ground arith in
          subst (IsLeast test (f ∷ es)) same
            (head-IsLeast f es y (All-vacuous f.sequence es (first-none es nobody)))
      | inr (g, found) ↦
          let rest = first_by_sequence-IsLeast es found in
          elim (Bool-cases (leb f.sequence g.sequence)) [
            | inl le ↦
                let same : f ≡ e = ground arith in
                subst (IsLeast test (f ∷ es)) same
                  (head-IsLeast f es y (All-weaken es (leb→le _ _ le) rest.least))
            | inr gt ↦
                let same : g ≡ e = ground arith in
                subst (IsLeast test (f ∷ es)) same (tail-IsLeast f g es rest (λ _. ground arith))
          ]
    ]
  ]

-- A claim that returns a lease has taken an entry of a job that is open, an entry that waits or whose
-- worker's lease is over, that nobody else has locked, and that has the least sequence of those. The
-- lease repeats the entry, with the next attempt; the entry is written in its place, and the job
-- stays as it is.
pub claim_takes_first :
    (locked : String → Bool) (owner : String) (now duration_ms : ℕ) (s : Import)
    {lease : EntryLease} {s' : Import}
    → claim_opml_import_entry locked owner now duration_ms s ≡ (some lease, s')
    → (e : Entry) × IsLeast (is_next locked now s.job) s.entries e
      × (lease ≡ lease_of s.job.id owner (add_milliseconds now duration_ms) e)
      × (s'.job ≡ s.job)
      × (s'.entries
          ≡ update_entries
              (has_id e.id)
              (claim_entry owner now (add_milliseconds now duration_ms))
              s.entries)
unfolding claim_opml_import_entry
claim_takes_first locked owner now d s h =
    elim (Option-cases (first_by_sequence (is_next locked now s.job) s.entries)) [
      | inl nobody ↦ absurd (ground arith)
      | inr (e, found) ↦
          (e, first_by_sequence-IsLeast _ s.entries found, ground arith, ground arith, ground arith)
    ]

-- A claim returns `null` exactly where no entry can be taken; then it changes nothing.
claim-eq-none_iff :
    (locked : String → Bool) (owner : String) (now duration_ms : ℕ) (s : Import)
    → (claim_opml_import_entry locked owner now duration_ms s ≡ (none, s))
      ↔ (any (is_next locked now s.job) s.entries ≡ false)
unfolding claim_opml_import_entry
claim-eq-none_iff locked owner now d s = (
  (λ h. elim (Option-cases (first_by_sequence (is_next locked now s.job) s.entries)) [
    | inl nobody ↦ first-none _ s.entries nobody
    | inr (e, found) ↦ absurd (ground arith)
  ]),
  (λ h. ground (arith, none-of_any (is_next locked now s.job) s.entries h)),
)
