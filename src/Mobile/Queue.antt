-- ===== src/Mobile/Queue.antt =====
-- The queue of changes in the database of the phone (queueMutation and updatePendingMutation in
-- apps/mobile/src/storage/mobile-offline-store.ts, and readPendingMobileMutations in
-- apps/mobile/src/storage/pending-mobile-mutations.ts). The table is the list of its rows, its key the
-- idempotency key. Each function runs in one exclusive transaction, which an exception rolls back: it
-- returns the table, or an error. Whether the owner record matches is an argument.
pub mod Capacity
pub mod Updates
mod Tests
use arctic_rss.Prelude.{
  ℕ, suc, zero, ◌+◌, Bool, true, false, Option, none, some, List, [], ◌∷◌, ◌++◌, ◌&&◌, ◌||◌, not,
  ltb, leb, if◌then◌else◌, length, keep, any, is_some, Text, codes, text_eq, ◌*◌,
}
use arctic_rss.Mobile.Mutation.{
  PendingMutation, QueuedMutation, MutationOwner, MutationState, Error, ownership_changed,
  already_queued, queue_full, unavailable, foreign, Attempt, returns, throws, ◌>>=◌, ◌>>◌, require,
  assert_queued_mutation, assert_pending_mutation, create_pending_mutation,
}
use arctic_rss.Mobile.Replay.{
  Failure, is_replayable_mutation, start_pending_mutation, complete_pending_mutation,
  fail_pending_mutation, retry_pending_mutation,
}

-- A row; its payload is nothing where the text is no JSON.
pub record Row : Type 0 where
  pub idempotency_key : Text
  pub payload : Option PendingMutation
  pub created_at : ℕ

abbrev pub maximum_pending_mutations : ℕ
maximum_pending_mutations = 100

abbrev mutation_send_lease_ms : ℕ
mutation_send_lease_ms = 60000

abbrev pub is_sending : MutationState → Bool
is_sending MutationState.sending = true
is_sending _ = false

abbrev pub key_of : PendingMutation → Text
key_of m = m.request.idempotency_key

abbrev pub row_of : PendingMutation → Row
row_of m = record {
  idempotency_key = key_of m;
  payload = some m;
  created_at = m.request.created_at;
}

abbrev pub is_active : PendingMutation → Bool
is_active m = elim m.state [ MutationState.completed ↦ false | _ ↦ true ]

abbrev pub has_key : Text → Row → Bool
has_key key row = text_eq row.idempotency_key key

-- `DELETE ... WHERE idempotencyKey = ?`
abbrev pub delete_key : Text → List Row → List Row
delete_key key rows = keep (λ (row : Row). not (has_key key row)) rows

unfoldable pub delete_keys : List Text → List Row → List Row
delete_keys [] rows = rows
delete_keys (key ∷ keys) rows = delete_keys keys (delete_key key rows)

-- `INSERT OR REPLACE`
abbrev pub write_pending_mutation : PendingMutation → List Row → List Row
write_pending_mutation m rows = delete_key (key_of m) rows ++ row_of m ∷ []

-- `ORDER BY createdAt ASC`
unfoldable pub insert_by_time : Row → List Row → List Row
insert_by_time r [] = r ∷ []
insert_by_time r (x ∷ xs) =
    let rest = insert_by_time r xs in if leb r.created_at x.created_at then r ∷ x ∷ xs else x ∷ rest

unfoldable pub by_time : List Row → List Row
unfolding insert_by_time
by_time [] = []
by_time (x ∷ xs) = insert_by_time x (by_time xs)

-- The first row of a key.
unfoldable pub find_row : Text → List Row → Option Row
find_row key [] = none
find_row key (row ∷ rows) =
    let rest = find_row key rows in if has_key key row then some row else rest

abbrev is_returned {ℓ} : {A : Type ℓ} → Attempt A → Bool
is_returned (returns a) = true
is_returned (throws e) = false

abbrev pub is_permanent_failure : MutationState → Bool
is_permanent_failure MutationState.permanent_failure = true
is_permanent_failure _ = false

abbrev pub belongs : MutationOwner → PendingMutation → Bool
belongs owner m =
    text_eq m.owner_user_id owner.user_id && text_eq m.mobile_device_id owner.mobile_device_id

abbrev pub found {ℓ} : {A : Type ℓ} → Option A → Error → Attempt A
found none e = throws e
found (some a) e = returns a

-- A change that was sent and whose answer is overdue.
abbrev pub is_interrupted : ℕ → PendingMutation → Bool
is_interrupted now m =
    is_sending m.state
    && elim m.last_attempt_at [ none ↦ false | some t ↦ leb (t + mutation_send_lease_ms) now ]

unfoldable pub completed_keys : List PendingMutation → List Text
completed_keys [] = []
completed_keys (m ∷ ms) =
    let rest = completed_keys ms in if is_active m then rest else key_of m ∷ rest

unfoldable pub first_replayable : ℕ → List PendingMutation → Option PendingMutation
first_replayable now [] = none
first_replayable now (m ∷ ms) =
    let rest = first_replayable now ms in if is_replayable_mutation m now then some m else rest

module _ (json_length : PendingMutation → ℕ) where
  -- The change of a row, if it is one that can be used.
  unfoldable pub read_row : Row → Option PendingMutation
  read_row row = elim row.payload [
    | none ↦ none
    | some m ↦
        if is_returned (assert_queued_mutation m.request)
          && (is_returned (assert_pending_mutation json_length m)
              && text_eq (key_of m) row.idempotency_key)
        then some m
        else none
  ]

  unfoldable pub mutations : List Row → List PendingMutation
  mutations [] = []
  mutations (row ∷ rows) =
      let rest = mutations rows in elim (read_row row) [ none ↦ rest | some m ↦ m ∷ rest ]

  unfoldable pub corrupt_keys : List Row → List Text
  corrupt_keys [] = []
  corrupt_keys (row ∷ rows) =
      let rest = corrupt_keys rows in
      if is_some (read_row row) then rest else row.idempotency_key ∷ rest

  -- An insertion of a key that is there fails.
  unfoldable pub queue_mutation :
      Bool → MutationOwner → QueuedMutation → List Row → Attempt (List Row)
  queue_mutation owner_matches owner input rows = do
    pending ← create_pending_mutation json_length input owner
    require owner_matches ownership_changed
    let readable = delete_keys (corrupt_keys rows) rows
    let queued = mutations readable
    require (not (any (λ m. text_eq (key_of m) (key_of pending)) queued)) already_queued
    let open_rows = delete_keys (completed_keys queued) readable
    require (ltb (length (keep is_active queued)) maximum_pending_mutations) queue_full
    require (not (any (has_key (key_of pending)) open_rows)) already_queued
    returns (open_rows ++ row_of pending ∷ [])

  -- The deletion of a row that cannot be used is rolled back with the rest, as the next line throws.
  unfoldable pub update_pending_mutation :
      Bool
      → MutationOwner
      → Text
      → (PendingMutation → Attempt PendingMutation)
      → List Row
      → Attempt (List Row × PendingMutation)
  update_pending_mutation owner_matches owner key update rows = do
    require owner_matches ownership_changed
    row ← found (find_row key rows) unavailable
    m ← found (read_row row) foreign
    require (belongs owner m) foreign
    updated ← update m
    returns (write_pending_mutation updated rows, updated)

  unfoldable pub complete_queued :
      Bool → MutationOwner → Text → ℕ → List Row → Attempt (List Row × PendingMutation)
  complete_queued owner_matches owner key now rows =
      update_pending_mutation owner_matches owner key
        (λ m. complete_pending_mutation json_length m now) rows

  unfoldable pub fail_queued :
      Bool
      → MutationOwner
      → Text
      → Text
      → Failure
      → ℕ
      → List Row
      → Attempt (List Row × PendingMutation)
  fail_queued owner_matches owner key code state now rows =
      update_pending_mutation owner_matches owner key
        (λ m. fail_pending_mutation json_length m code state now) rows

  unfoldable retry_terminal_queued :
      Bool → MutationOwner → Text → ℕ → List Row → Attempt (List Row × PendingMutation)
  retry_terminal_queued owner_matches owner key now rows =
      update_pending_mutation owner_matches owner key
        (λ m. retry_pending_mutation json_length m now) rows

  unfoldable pub recover :
      ℕ → List PendingMutation → List Row → Attempt (List PendingMutation × List Row)
  recover now [] rows = returns ([], rows)
  recover now (m ∷ ms) rows = elim (is_interrupted now m) [
    | false ↦ do (later, written) ← recover now ms rows; returns (m ∷ later, written)
    | true ↦ do
      r ←
          fail_pending_mutation json_length m (codes "INTERRUPTED_REPLAY") Failure.retryable_failure
            now
      (later, written) ← recover now ms (write_pending_mutation r rows)
      returns (r ∷ later, written)
  ]

  unfoldable pub start_first :
      ℕ → Option PendingMutation → List Row → Attempt (List Row × Option PendingMutation)
  start_first now none rows = returns (rows, none)
  start_first now (some replayable) rows = do
    sending ← start_pending_mutation json_length replayable now
    (if is_permanent_failure sending.state
        then returns (write_pending_mutation sending rows, none)
        else returns (write_pending_mutation sending rows, some sending))

  unfoldable pub next_replayable_mutation :
      Bool → ℕ → List Row → Attempt (List Row × Option PendingMutation)
  unfolding start_first
  next_replayable_mutation owner_matches now rows = do
    require owner_matches ownership_changed
    let readable = delete_keys (corrupt_keys rows) rows
    (recovered, written) ← recover now (mutations (by_time readable)) readable
    start_first now (first_replayable now recovered) written
