-- ===== src/Lease/Opml/Finalize.antt =====
-- A worker that comes late changes nothing: the attempt of an entry fences its completion.
use arctic_rss.Prelude.{
  ℕ, ◌+◌, ◌≤◌, ◌<◌, String, ◌≡◌, refl, ap, sym, Bool, true, false, Option, some, List, [], ◌∷◌,
  arith, inl, inr, Option-cases, any, eq_iff, eq_refl, subst,
}
use mathlib.Core.List.{Memᴰ}
use arctic_rss.Lease.Time.{add_milliseconds}
use arctic_rss.Lease.Opml.{
  Entry, Outcome, Import, has_id, update_entries, is_fenced, first_by_sequence, EntryLease,
  lease_of, is_next, finalize_entry, claim_entry, renew_entry, claim_opml_import_entry,
  finalize_opml_import_entry, renew_opml_import_entry_lease,
}
use arctic_rss.Lease.Opml.Rows.{
  NodupIds, attempt_of, update_entries_miss, attempt_of-update_entries, is_fenced_stale, present,
}
use arctic_rss.Lease.Opml.Claim.{claim_takes_first}
use arctic_rss.Lease.Opml.Counters.{IsConsistent}
use arctic_rss.Lease.Opml.Runs.{
  Operation, claim, finalize, renew, operate, operate_all, claim-IsConsistent,
  operate_all-IsConsistent,
}

attempts_grow :
    (o : Operation) (id : String) (s : Import)
    → attempt_of id s.entries ≤ attempt_of id (operate o s).entries
unfolding operate claim_opml_import_entry finalize_opml_import_entry renew_opml_import_entry_lease
    claim_entry finalize_entry renew_entry
attempts_grow (claim locked owner now d) id s =
    elim (Option-cases (first_by_sequence (is_next locked now s.job) s.entries)) [
      | inl nobody ↦ ground (arith, nobody)
      | inr (e, found) ↦
          let up =
            attempt_of-update_entries (has_id e.id) (claim_entry owner now (add_milliseconds now d))
              (λ _. refl) (λ _. omega arith) id s.entries in
          ground (arith, found, up)
    ]
attempts_grow (finalize m lease now o) id s = ground (
  arith,
  attempt_of-update_entries (is_fenced lease now) (finalize_entry m now o) (λ _. refl)
      (λ _. omega arith) id s.entries,
)
attempts_grow (renew lease now d) id s =
    attempt_of-update_entries (is_fenced lease now) (renew_entry (add_milliseconds now d))
      (λ _. refl) (λ _. omega arith) id s.entries

all_attempts_grow :
    (os : List Operation) (id : String) (s : Import)
    → attempt_of id s.entries ≤ attempt_of id (operate_all os s).entries
unfolding operate_all
all_attempts_grow [] id s = omega arith
all_attempts_grow (o ∷ os) id s =
    omega (arith, attempts_grow o id s, all_attempts_grow os id (operate o s))

attempt_of_listed :
    (e : Entry) (es : List Entry) → NodupIds es → Memᴰ e es → attempt_of e.id es ≡ e.attempt
attempt_of_listed e [] d m = elim m [ ]
attempt_of_listed e (f ∷ es) d (Memᴰ.head same) =
    rw (sym (ap (λ (g : Entry). g.id) same), eq_refl e.id)
      (sym (ap (λ (g : Entry). g.attempt) same))
attempt_of_listed e (f ∷ es) (fresh, d) (Memᴰ.tail m) =
    ground (arith, attempt_of_listed e es d m, present e es m, eq_iff f.id e.id)

attempt_of-claim :
    (id owner : String) (now expires : ℕ) (es : List Entry)
    → any (has_id id) es ≡ true
    → attempt_of id (update_entries (has_id id) (claim_entry owner now expires) es)
      ≡ attempt_of id es + 1
unfolding update_entries claim_entry
attempt_of-claim id owner now expires [] h = cc
attempt_of-claim id owner now expires (e ∷ es) h =
    ground (arith, attempt_of-claim id owner now expires es)

-- A claim raises the attempt of its entry by one, to that of the lease.
claim_raises :
    (locked : String → Bool) (owner : String) (now d : ℕ) (s : Import) {lease : EntryLease}
    {s' : Import}
    → NodupIds s.entries
    → claim_opml_import_entry locked owner now d s ≡ (some lease, s')
    → (lease.attempt ≡ attempt_of lease.id s.entries + 1)
      × (attempt_of lease.id s'.entries ≡ lease.attempt)
unfolding lease_of
claim_raises locked owner now d s {lease} {s'} nodup h =
    let (e, first, taken, _, written) = claim_takes_first locked owner now d s h in
    let id : lease.id ≡ e.id = ap (λ (l : EntryLease). l.id) taken in
    let attempt : lease.attempt ≡ e.attempt + 1 = ap (λ (l : EntryLease). l.attempt) taken in
    let old = attempt_of_listed e s.entries nodup first.listed in
    let new =
      attempt_of-claim e.id owner now (add_milliseconds now d) s.entries
        (present e s.entries first.listed) in
    (
      omega (arith, attempt, old, ap (λ (k : String). attempt_of k s.entries) id),
      omega (
        arith,
        attempt,
        old,
        new,
        ap (λ (k : String). attempt_of k s'.entries) id,
        ap (attempt_of e.id) written,
      ),
    )

-- Two workers claim one entry, one after the other, with any operations of any workers between the
-- claims and after them. Then the first worker can neither complete the entry nor renew its lease:
-- both calls return `false` and leave the import as it is, its counters included.
pub late_worker_fenced :
    (before after : List Operation) (locked1 locked2 : String → Bool) (owner1 owner2 : String)
    (now1 d1 now2 d2 : ℕ) (s : Import) {lease1 lease2 : EntryLease} {s1 s2 : Import}
    (error_message : Option String) (now d : ℕ) (o : Outcome)
    → IsConsistent s
    → claim_opml_import_entry locked1 owner1 now1 d1 s ≡ (some lease1, s1)
    → claim_opml_import_entry locked2 owner2 now2 d2 (operate_all before s1) ≡ (some lease2, s2)
    → lease2.id ≡ lease1.id
    → (finalize_opml_import_entry error_message lease1 now o (operate_all after s2)
        ≡ (false, operate_all after s2))
      × (renew_opml_import_entry_lease lease1 now d (operate_all after s2)
          ≡ (false, operate_all after s2))
unfolding finalize_opml_import_entry renew_opml_import_entry_lease
late_worker_fenced before after locked1 locked2 o1 o2 n1 d1 n2 d2 s {lease1} {lease2} {s1} {s2} m
      now d o c claim1 claim2 same =
    let c1 : IsConsistent s1 =
      subst IsConsistent (ap (λ (w : Option EntryLease × Import). w.1) claim1)
        (claim-IsConsistent locked1 o1 n1 d1 s c) in
    let c1' = operate_all-IsConsistent before s1 c1 in
    let c2 : IsConsistent s2 =
      subst IsConsistent (ap (λ (w : Option EntryLease × Import). w.1) claim2)
        (claim-IsConsistent locked2 o2 n2 d2 (operate_all before s1) c1') in
    let c2' = operate_all-IsConsistent after s2 c2 in
    let (_, at1) = claim_raises locked1 o1 n1 d1 s c.nodup claim1 in
    let (up2, at2) = claim_raises locked2 o2 n2 d2 (operate_all before s1) c1'.nodup claim2 in
    let stale : lease1.attempt < attempt_of lease1.id (operate_all after s2).entries = omega (
      arith,
      at1,
      rw same at up2,
      rw same at at2,
      all_attempts_grow before lease1.id s1,
      all_attempts_grow after lease1.id s2,
    ) in
    let missed = is_fenced_stale lease1 now (operate_all after s2).entries c2'.nodup stale in
    let kept =
      update_entries_miss (is_fenced lease1 now) (renew_entry (add_milliseconds now d))
        (operate_all after s2).entries missed in
    (rw missed, λ i. (missed i, record { job = (operate_all after s2).job; entries = kept i }))
