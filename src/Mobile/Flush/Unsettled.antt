-- ===== src/Mobile/Flush/Unsettled.antt =====
-- How many changes of the table may still be sent.
use arctic_rss.Prelude.{
  ℕ, suc, ◌+◌, ◌≤◌, ◌≡◌, refl, ap, sym, ◌∙◌, subst, inl, inr, Bool, true, false, none, some, List,
  [], ◌∷◌, ◌++◌, ◌&&◌, ◌||◌, if◌then◌else◌, length, keep, any, All, Text, text_eq, text_eq_refl,
  text_eq_sound, arith, Bool-cases, Option-cases,
}
use arctic_rss.Mobile.Mutation.{PendingMutation, MutationState}
use arctic_rss.Mobile.Queue.{
  Row, key_of, row_of, has_key, delete_key, delete_keys, write_pending_mutation, read_row,
  mutations, by_time, insert_by_time,
}

abbrev pub state_unsettled : MutationState → Bool
state_unsettled MutationState.pending = true
state_unsettled MutationState.sending = true
state_unsettled MutationState.retryable_failure = true
state_unsettled _ = false

abbrev pub is_unsettled : Row → Bool
is_unsettled row = elim row.payload [ none ↦ false | some m ↦ state_unsettled m.state ]

abbrev pub unsettled_count : List Row → ℕ
unsettled_count rows = length (keep is_unsettled rows)

-- A row of the key with a change that may still be sent.
abbrev pub has_unsettled : Text → List Row → Bool
has_unsettled key rows = any (λ row. has_key key row && is_unsettled row) rows

unsettled_count-delete_key :
    (key : Text) (rows : List Row) → unsettled_count (delete_key key rows) ≤ unsettled_count rows
unsettled_count-delete_key key [] = omega arith
unsettled_count-delete_key key (row ∷ rows) = ground (arith, unsettled_count-delete_key key rows)

pub unsettled_count-delete_keys :
    (keys : List Text) (rows : List Row)
    → unsettled_count (delete_keys keys rows) ≤ unsettled_count rows
unfolding delete_keys
unsettled_count-delete_keys [] rows = omega arith
unsettled_count-delete_keys (key ∷ keys) rows =
    let rest = unsettled_count-delete_keys keys (delete_key key rows) in
    omega (arith, rest, unsettled_count-delete_key key rows)

-- The deletion of a change that may still be sent lowers their number.
unsettled_count-delete_less :
    (key : Text) (rows : List Row)
    → has_unsettled key rows ≡ true
    → suc (unsettled_count (delete_key key rows)) ≤ unsettled_count rows
unsettled_count-delete_less key [] h = cc
unsettled_count-delete_less key (row ∷ rows) h =
    elim (Bool-cases (has_key key row && is_unsettled row)) [
      | inl here ↦ ground (arith, here, unsettled_count-delete_key key rows)
      | inr there ↦ ground (arith, h, there, unsettled_count-delete_less key rows)
    ]

unsettled_count-append :
    (rows : List Row) (row : Row)
    → unsettled_count (rows ++ row ∷ [])
      ≡ unsettled_count rows + (if is_unsettled row then 1 else 0)
unsettled_count-append [] row = ground arith
unsettled_count-append (x ∷ rows) row = ground (arith, unsettled_count-append rows row)

-- What a write does to the number, if it replaces a change that may still be sent.
pub unsettled_count-write :
    (m : PendingMutation) (rows : List Row)
    → has_unsettled (key_of m) rows ≡ true
    → unsettled_count (write_pending_mutation m rows) + (if state_unsettled m.state then 0 else 1)
      ≤ unsettled_count rows
unsettled_count-write m rows h =
    let last = unsettled_count-append (delete_key (key_of m) rows) (row_of m) in
    let less = unsettled_count-delete_less (key_of m) rows h in ground (arith, last, less)

has_unsettled-append :
    (key : Text) (rows more : List Row)
    → has_unsettled key (rows ++ more) ≡ (has_unsettled key rows || has_unsettled key more)
has_unsettled-append key [] more = refl
has_unsettled-append key (row ∷ rows) more = ground (arith, has_unsettled-append key rows more)

has_unsettled-delete :
    (key other : Text) (rows : List Row)
    → text_eq other key ≡ false
    → has_unsettled key rows ≡ true
    → has_unsettled key (delete_key other rows) ≡ true
has_unsettled-delete key other [] apart h = cc
has_unsettled-delete key other (row ∷ rows) apart h = elim (Bool-cases (has_key other row)) [
  | inl deleted ↦
      let e = text_eq_sound row.idempotency_key other deleted in
      let unlike : has_key key row ≡ false = rw e apart in
      ground (arith, h, deleted, unlike, has_unsettled-delete key other rows apart)
  | inr stays ↦ ground (arith, h, stays, has_unsettled-delete key other rows apart)
]

-- The change that is written stands in the table.
pub has_unsettled-written :
    (m : PendingMutation) (rows : List Row)
    → state_unsettled m.state ≡ true
    → has_unsettled (key_of m) (write_pending_mutation m rows) ≡ true
has_unsettled-written m rows h =
    let split = has_unsettled-append (key_of m) (delete_key (key_of m) rows) (row_of m ∷ []) in
    ground (arith, h, split, text_eq_refl (key_of m))

-- A write of a change that may still be sent loses no other.
pub has_unsettled-write :
    (key : Text) (m : PendingMutation) (rows : List Row)
    → state_unsettled m.state ≡ true
    → has_unsettled key rows ≡ true
    → has_unsettled key (write_pending_mutation m rows) ≡ true
has_unsettled-write key m rows u h = elim (Bool-cases (text_eq (key_of m) key)) [
  | inl same ↦
      subst (λ k. has_unsettled k (write_pending_mutation m rows) ≡ true)
        (text_eq_sound (key_of m) key same) (has_unsettled-written m rows u)
  | inr apart ↦
      let kept = has_unsettled-delete key (key_of m) rows apart h in
      let split = has_unsettled-append key (delete_key (key_of m) rows) (row_of m ∷ []) in
      ground (arith, kept, split)
]

-- Every change of the list that may still be sent stands in the table as such.
abbrev pub Covered : List PendingMutation → List Row → Type 0
Covered ms rows =
    All
      (λ (m : PendingMutation).
        state_unsettled m.state ≡ true → has_unsettled (key_of m) rows ≡ true)
      ms

pub Covered-write :
    (ms : List PendingMutation) (u : PendingMutation) (rows : List Row)
    → state_unsettled u.state ≡ true
    → Covered ms rows
    → Covered ms (write_pending_mutation u rows)
Covered-write [] u rows h c = tt
Covered-write (m ∷ ms) u rows h (c, cs) =
    (λ l. has_unsettled-write (key_of m) u rows h (c l), Covered-write ms u rows h cs)

Covered-more :
    (ms : List PendingMutation) (row : Row) (rows : List Row)
    → Covered ms rows
    → Covered ms (row ∷ rows)
Covered-more [] row rows c = tt
Covered-more (m ∷ ms) row rows (c, cs) = (λ l. ground (arith, c l), Covered-more ms row rows cs)

has_unsettled-insert :
    (key : Text) (row : Row) (rows : List Row)
    → has_unsettled key (insert_by_time row rows)
      ≡ ((has_key key row && is_unsettled row) || has_unsettled key rows)
unfolding insert_by_time
has_unsettled-insert key row [] = refl
has_unsettled-insert key row (x ∷ rows) = ground (arith, has_unsettled-insert key row rows)

has_unsettled-by_time :
    (key : Text) (rows : List Row) → has_unsettled key (by_time rows) ≡ has_unsettled key rows
unfolding by_time
has_unsettled-by_time key [] = refl
has_unsettled-by_time key (row ∷ rows) =
    ground (arith, has_unsettled-insert key row (by_time rows), has_unsettled-by_time key rows)

pub Covered-by_time :
    (ms : List PendingMutation) (rows : List Row) → Covered ms (by_time rows) → Covered ms rows
Covered-by_time [] rows c = tt
Covered-by_time (m ∷ ms) rows (c, cs) =
    (λ l. sym (has_unsettled-by_time (key_of m) rows) ∙ c l, Covered-by_time ms rows cs)

module _ (json_length : PendingMutation → ℕ) where
  read_row-unsettled :
      (row : Row) (m : PendingMutation)
      → read_row json_length row ≡ some m
      → state_unsettled m.state ≡ true
      → (has_key (key_of m) row && is_unsettled row) ≡ true
  unfolding read_row
  read_row-unsettled row m h u = elim (Option-cases row.payload) [
    | inl empty ↦ absurd (ground (arith, h, empty))
    | inr (q, e) ↦
        let same : q ≡ m = ground (arith, h, e) in
        let keyed : text_eq (key_of q) row.idempotency_key ≡ true = ground (arith, h, e) in
        let key : row.idempotency_key ≡ key_of m =
          sym (text_eq_sound (key_of q) row.idempotency_key keyed) ∙ ap key_of same in
        let has : text_eq row.idempotency_key (key_of m) ≡ true =
          rw key (text_eq_refl (key_of m)) in
        let open_state =
          subst (λ (x : PendingMutation). state_unsettled x.state ≡ true) (sym same) u in
        let unsettled : is_unsettled row ≡ true = rw e open_state in ground (arith, has, unsettled)
  ]

  pub mutations-Covered : (rows : List Row) → Covered (mutations json_length rows) rows
  unfolding mutations
  mutations-Covered [] = tt
  mutations-Covered (row ∷ rows) =
      let rest = Covered-more (mutations json_length rows) row rows (mutations-Covered rows) in
      elim (Option-cases (read_row json_length row)) [
        | inl empty ↦ rw (mutations, empty) rest
        | inr (m, e) ↦ rw (mutations, e) (λ u. ground (arith, read_row-unsettled row m e u), rest)
      ]
