-- ===== src/Lease/Opml/Rows.antt =====
-- Updates of the entry table: what a test by the primary key reaches.
use arctic_rss.Prelude.{
  ℕ, ◌≤◌, ◌<◌, String, ◌≡◌, refl, ap, Bool, true, false, List, [], ◌∷◌, arith, inl, inr, Bool-cases,
  if◌then◌else◌, any, eq_iff, str_eq, eq_refl, All, subst, sym,
}
use mathlib.Core.List.{Memᴰ}
use arctic_rss.Lease.Opml.{Entry, has_id, update_entries, is_fenced, EntryLease}

-- The primary key: no two entries share an id.
abbrev pub NodupIds : List Entry → Type 0
NodupIds [] = Unit
NodupIds (e ∷ es) = (any (has_id e.id) es ≡ false) × NodupIds es

-- The attempt of the entry with this id, 0 where there is none.
abbrev pub attempt_of : String → List Entry → ℕ
attempt_of id [] = 0
attempt_of id (e ∷ es) = if str_eq e.id id then e.attempt else attempt_of id es

module _ (test : Entry → Bool) (change : Entry → Entry) where
  pub update_entries_miss :
      (es : List Entry) → any test es ≡ false → update_entries test change es ≡ es
  unfolding update_entries
  update_entries_miss [] h = refl
  update_entries_miss (e ∷ es) h = ground (arith, update_entries_miss es)

  module _ (same : (e : Entry) → (change e).id ≡ e.id) where
    any-update_entries :
        (id : String) (es : List Entry)
        → any (has_id id) (update_entries test change es) ≡ any (has_id id) es
    unfolding update_entries
    any-update_entries id [] = refl
    any-update_entries id (e ∷ es) = ground (arith, any-update_entries id es, same e)

    pub update_entries-NodupIds :
        (es : List Entry) → NodupIds es → NodupIds (update_entries test change es)
    unfolding update_entries
    update_entries-NodupIds [] h = tt
    update_entries-NodupIds (e ∷ es) (fresh, h) =
        ground (arith, any-update_entries e.id es, same e, update_entries-NodupIds es h)

    pub attempt_of-update_entries :
        ((e : Entry) → e.attempt ≤ (change e).attempt)
        → (id : String) (es : List Entry)
        → attempt_of id es ≤ attempt_of id (update_entries test change es)
    unfolding update_entries
    attempt_of-update_entries up id [] = omega arith
    attempt_of-update_entries up id (e ∷ es) =
        ground (arith, attempt_of-update_entries up id es, same e, up e)

is_fenced_absent :
    (lease : EntryLease) (now : ℕ) (es : List Entry)
    → any (has_id lease.id) es ≡ false
    → any (is_fenced lease now) es ≡ false
unfolding is_fenced
is_fenced_absent lease now [] absent = refl
is_fenced_absent lease now (f ∷ es) absent = ground (arith, is_fenced_absent lease now es)

-- Two entries that meet one fence have one id.
pub is_fenced_once :
    (lease : EntryLease) (now : ℕ) (e : Entry) (es : List Entry)
    → is_fenced lease now e ≡ true
    → any (has_id e.id) es ≡ false
    → any (is_fenced lease now) es ≡ false
unfolding is_fenced
is_fenced_once lease now e es h fresh =
    let same : e.id ≡ lease.id = ground (arith, eq_iff e.id lease.id) in
    is_fenced_absent lease now es (rw same at fresh)

-- A fence of an attempt that is below the entry's reaches nothing.
pub is_fenced_stale :
    (lease : EntryLease) (now : ℕ) (es : List Entry)
    → NodupIds es
    → lease.attempt < attempt_of lease.id es
    → any (is_fenced lease now) es ≡ false
unfolding is_fenced
is_fenced_stale lease now [] d h = refl
is_fenced_stale lease now (e ∷ es) (fresh, d) h = elim (Bool-cases (str_eq e.id lease.id)) [
  | inl same ↦
      let absent = is_fenced_absent lease now es (rw ((eq_iff e.id lease.id).0 same) at fresh) in
      ground (arith, absent)
  | inr other ↦ ground (arith, is_fenced_stale lease now es d)
]

pub present : (e : Entry) (es : List Entry) → Memᴰ e es → any (has_id e.id) es ≡ true
present e [] m = elim m [ ]
present e (f ∷ es) (Memᴰ.head same) = rw (sym (ap (λ (g : Entry). g.id) same), eq_refl e.id)
present e (f ∷ es) (Memᴰ.tail m) = ground (arith, present e es m)

module _ {ℓ} (P : Entry → Type ℓ) where
  All-absent :
      (id : String) (es : List Entry)
      → any (has_id id) es ≡ false
      → All (λ f. has_id id f ≡ true → P f) es
  All-absent id [] h = tt
  All-absent id (f ∷ es) h = ((λ y. absurd (ground arith)), All-absent id es (ground arith))

  -- An entry of the list with this id is the only one.
  pub only_with_id :
      (e : Entry) (es : List Entry)
      → NodupIds es
      → Memᴰ e es
      → P e
      → All (λ f. has_id e.id f ≡ true → P f) es
  only_with_id e [] d m p = elim m [ ]
  only_with_id e (f ∷ es) (fresh, d) (Memᴰ.head same) p = (
    (λ _. subst P same p),
    All-absent e.id es (rw (sym (ap (λ (g : Entry). g.id) same)) at fresh),
  )
  only_with_id e (f ∷ es) (fresh, d) (Memᴰ.tail m) p = (
    (λ h.
        absurd (
          ground (arith, eq_iff f.id e.id, rw (sym ((eq_iff f.id e.id).0 h)) at (present e es m)))),
    only_with_id e es d m p,
  )
