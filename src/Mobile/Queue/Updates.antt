-- ===== src/Mobile/Queue/Updates.antt =====
-- What an update of a queued change, and the choice of the next one to send, leave in the table.
use arctic_rss.Prelude.{
  ℕ, ◌≤◌, ◌≡◌, refl, sym, subst, ◌∙◌, ap, inl, inr, Bool, true, false, Option, none, some, List, [],
  ◌∷◌, Text, text_eq, text_eq_refl, text_eq_sound, arith, Bool-cases, Option-cases,
}
use arctic_rss.Mobile.Mutation.{
  PendingMutation, QueuedMutation, MutationOwner, MutationState, Error, unavailable, foreign,
  Attempt, returns, max_mutation_attempts,
}
use arctic_rss.Mobile.Replay.{start_pending_mutation}
use arctic_rss.Mobile.Replay.Validity.{bind-eq-returns, require-eq-returns}
use arctic_rss.Mobile.Replay.Outcome.{
  Act, start, act, Moves, sent, exhausted, act-Moves, act-SameChange,
}
use arctic_rss.Mobile.Queue.{
  Row, key_of, row_of, has_key, delete_keys, read_row, mutations, corrupt_keys, find_row,
  write_pending_mutation, update_pending_mutation, belongs, found, recover, first_replayable,
  start_first, next_replayable_mutation, by_time, is_permanent_failure,
}

find_row-write :
    (m : PendingMutation) (rows : List Row)
    → find_row (key_of m) (write_pending_mutation m rows) ≡ some (row_of m)
unfolding find_row
find_row-write m [] = ground (arith, text_eq_refl (key_of m))
find_row-write m (row ∷ rows) = ground (arith, find_row-write m rows)

find_row-other :
    (m : PendingMutation) (key : Text) (rows : List Row)
    → text_eq (key_of m) key ≡ false
    → find_row key (write_pending_mutation m rows) ≡ find_row key rows
unfolding find_row
find_row-other m key [] h = ground (arith, h)
find_row-other m key (row ∷ rows) h = elim (Bool-cases (has_key (key_of m) row)) [
  | inl same ↦
      let e = text_eq_sound row.idempotency_key (key_of m) same in
      let h' : has_key key row ≡ false = rw e h in
      ground (arith, find_row-other m key rows h, same, h')
  | inr other ↦ ground (arith, find_row-other m key rows h, other)
]

found_key :
    (key : Text) (rows : List Row) (r : Row) → find_row key rows ≡ some r → r.idempotency_key ≡ key
unfolding find_row
found_key key [] r h = cc
found_key key (row ∷ rows) r h = elim (Bool-cases (has_key key row)) [
  | inl same ↦
      let e : row ≡ r = ground (arith, h) in
      let known : text_eq r.idempotency_key key ≡ true =
        ap (λ (x : Row). has_key key x) (sym e) ∙ same in
      text_eq_sound r.idempotency_key key known
  | inr other ↦ found_key key rows r (ground (arith, h))
]

moves_sending :
    {q u : PendingMutation} {now : ℕ}
    → Moves q u (start now)
    → is_permanent_failure u.state ≡ false
    → (u.state ≡ MutationState.sending) × (u.attempt_count ≤ max_mutation_attempts)
moves_sending (sent _ _ below counted state) alive = (state, omega arith)
moves_sending (exhausted _ _ _ _ state _) alive = absurd (ground (arith, state, alive))

module _ (json_length : PendingMutation → ℕ) where
  read_key :
      (row : Row) (m : PendingMutation)
      → read_row json_length row ≡ some m
      → key_of m ≡ row.idempotency_key
  unfolding read_row
  read_key row m h = elim (Option-cases row.payload) [
    | inl empty ↦ absurd (ground arith)
    | inr (q, e) ↦
        let same : q ≡ m = ground (arith, h) in
        let keyed : text_eq (key_of q) row.idempotency_key ≡ true = ground (arith, h) in
        ap key_of (sym same) ∙ text_eq_sound (key_of q) row.idempotency_key keyed
  ]

  found-eq-returns {ℓ} :
      {A : Type ℓ} (o : Option A) (e : Error) {a : A} → found o e ≡ returns a → o ≡ some a
  found-eq-returns o e h = ground arith

  -- The row of the key that the table has and the change that is read from it, before an operation, and
  -- the change and the table after it.
  pub record Updated (owner : MutationOwner) (key : Text) (a : Act) (rows rows' : List Row)
      (m' : PendingMutation) : Type 0 where
    pub row : Row
    pub before : PendingMutation
    pub here : find_row key rows ≡ some row
    pub usable : read_row json_length row ≡ some before
    pub acted : act json_length a before ≡ returns m'
    pub owned : belongs owner before ≡ true
    pub moved : Moves before m' a
    pub keyed : key_of m' ≡ key
    pub stored : rows' ≡ write_pending_mutation m' rows
    pub written : find_row key rows' ≡ some (row_of m')
    pub others :
        (other : Text) → text_eq key other ≡ false → find_row other rows' ≡ find_row other rows

  written-Updated :
      (owner : MutationOwner) (key : Text) (a : Act) (rows : List Row) (row : Row)
      (m u : PendingMutation)
      → find_row key rows ≡ some row
      → read_row json_length row ≡ some m
      → belongs owner m ≡ true
      → act json_length a m ≡ returns u
      → key_of u ≡ key
      → Updated owner key a rows (write_pending_mutation u rows) u
  written-Updated owner key a rows row m u here usable owned acted keyed = record {
    row = row;
    before = m;
    here = here;
    usable = usable;
    acted = acted;
    owned = owned;
    moved = act-Moves json_length a m acted;
    keyed = keyed;
    stored = refl;
    written =
        subst (λ k. find_row k (write_pending_mutation u rows) ≡ some (row_of u)) keyed
          (find_row-write u rows);
    others = λ other apart. find_row-other u other rows (rw keyed apart);
  }

  moved-Updated :
      (owner : MutationOwner) (key : Text) (a : Act) (rows table rows' : List Row)
      (u m' : PendingMutation)
      → ◌≡◌ {A = Attempt (List Row × PendingMutation)} (returns (table, u)) (returns (rows', m'))
      → Updated owner key a rows table u
      → Updated owner key a rows rows' m'
  moved-Updated owner key a rows table rows' u m' h done =
      let e : table ≡ rows' = ground (arith, h) in
      let e' : u ≡ m' = ground (arith, h) in
      subst (λ t. Updated owner key a rows t m') e
        (subst (λ x. Updated owner key a rows table x) e' done)

  -- An update that does not throw found the owner record to match, and the first row of the key to have
  -- a usable change, which is the owner's; the operation took this change to the one that is returned,
  -- which moved along its life and stands in the table under the key; the rows of other keys are as they
  -- were.
  pub update_pending_mutation-Updated :
      (owner_matches : Bool) (owner : MutationOwner) (key : Text) (a : Act) (rows rows' : List Row)
      (m' : PendingMutation)
      → update_pending_mutation json_length owner_matches owner key (act json_length a) rows
        ≡ returns (rows', m')
      → (owner_matches ≡ true) × Updated owner key a rows rows' m'
  unfolding update_pending_mutation
  update_pending_mutation-Updated owner_matches owner key a rows rows' m' h =
      let (matches, h1) = require-eq-returns owner_matches _ _ h in
      let (row, (f, h2)) = bind-eq-returns (found (find_row key rows) unavailable) _ h1 in
      let (m, (r, h3)) = bind-eq-returns (found (read_row json_length row) foreign) _ h2 in
      let (owned, h4) = require-eq-returns (belongs owner m) _ _ h3 in
      let (u, (acted, h5)) = bind-eq-returns (act json_length a m) _ h4 in
      let here = found-eq-returns (find_row key rows) unavailable f in
      let read = found-eq-returns (read_row json_length row) foreign r in
      let kept : key_of u ≡ key_of m =
        ap (λ (q : QueuedMutation). q.idempotency_key)
          (act-SameChange json_length a m acted).request in
      let keyed : key_of u ≡ key = kept ∙ (read_key row m read ∙ found_key key rows row here) in
      let done = written-Updated owner key a rows row m u here read owned acted keyed in
      (matches, moved-Updated owner key a rows (write_pending_mutation u rows) rows' u m' h5 done)

  started_sending :
      (now : ℕ) (q u : PendingMutation)
      → act json_length (start now) q ≡ returns u
      → is_permanent_failure u.state ≡ false
      → (u.state ≡ MutationState.sending) × (u.attempt_count ≤ max_mutation_attempts)
  started_sending now q u h alive = moves_sending (act-Moves json_length (start now) q h) alive

  start_first-sending :
      (now : ℕ) (o : Option PendingMutation) (table rows' : List Row) (m : PendingMutation)
      → start_first json_length now o table ≡ returns (rows', some m)
      → (m.state ≡ MutationState.sending)
        × ((m.attempt_count ≤ max_mutation_attempts)
            × (find_row (key_of m) rows' ≡ some (row_of m)))
  unfolding start_first act
  start_first-sending now none table rows' m h = absurd (ground (arith, h))
  start_first-sending now (some q) table rows' m h =
      let (u, (acted, h1)) = bind-eq-returns (start_pending_mutation json_length q now) _ h in
      elim (Bool-cases (is_permanent_failure u.state)) [
        | inl dead ↦ absurd (ground (arith, h1, dead))
        | inr alive ↦
            let same : u ≡ m = ground (arith, h1, alive) in
            let table' : write_pending_mutation u table ≡ rows' = ground (arith, h1, alive) in
            let (sending, few) = started_sending now q u acted alive in
            let wrote : find_row (key_of u) rows' ≡ some (row_of u) =
              subst (λ t. find_row (key_of u) t ≡ some (row_of u)) table'
                (find_row-write u table) in
            subst
              (λ (x : PendingMutation).
                (x.state ≡ MutationState.sending)
                × ((x.attempt_count ≤ max_mutation_attempts)
                    × (find_row (key_of x) rows' ≡ some (row_of x))))
              same (sending, (few, wrote))
      ]

  -- The next change to send, if there is one, is marked as sent, at most ten times in all, and stands
  -- so in the table.
  pub next_replayable-sending :
      (owner_matches : Bool) (now : ℕ) (rows rows' : List Row) (m : PendingMutation)
      → next_replayable_mutation json_length owner_matches now rows ≡ returns (rows', some m)
      → (m.state ≡ MutationState.sending)
        × ((m.attempt_count ≤ max_mutation_attempts)
            × (find_row (key_of m) rows' ≡ some (row_of m)))
  unfolding next_replayable_mutation
  next_replayable-sending owner_matches now rows rows' m h =
      let readable = delete_keys (corrupt_keys json_length rows) rows in
      let queued = mutations json_length (by_time readable) in
      let (_, h1) = require-eq-returns owner_matches _ _ h in
      let (recovered, (r, h2)) = bind-eq-returns (recover json_length now queued readable) _ h1 in
      start_first-sending now (first_replayable now recovered.0) recovered.1 rows' m h2
