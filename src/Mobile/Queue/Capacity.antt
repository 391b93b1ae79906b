-- ===== src/Mobile/Queue/Capacity.antt =====
-- How many changes wait in the queue.
use arctic_rss.Prelude.{
  ℕ, suc, ◌≤◌, ◌≡◌, refl, subst, Bool, false, none, some, List, [], ◌∷◌, ◌++◌, not, ltb, length,
  keep, any, Text, text_eq, text_eq_refl, arith, ltb→lt,
}
use arctic_rss.Mobile.Mutation.{
  PendingMutation, QueuedMutation, MutationOwner, returns, create_pending_mutation,
}
use arctic_rss.Mobile.Replay.Validity.{bind-eq-returns, require-eq-returns}
use arctic_rss.Mobile.Queue.{
  Row, key_of, row_of, is_active, has_key, delete_key, delete_keys, read_row, mutations,
  corrupt_keys, completed_keys, find_row, queue_mutation, maximum_pending_mutations,
}

find_row-last :
    (m : PendingMutation) (rows : List Row)
    → any (has_key (key_of m)) rows ≡ false
    → find_row (key_of m) (rows ++ row_of m ∷ []) ≡ some (row_of m)
unfolding find_row
find_row-last m [] free = ground (arith, text_eq_refl (key_of m))
find_row-last m (row ∷ rows) free = ground (arith, find_row-last m rows)

module _ (json_length : PendingMutation → ℕ) where
  abbrev is_active_row : Row → Bool
  is_active_row row = elim (read_row json_length row) [ none ↦ false | some m ↦ is_active m ]

  -- The number of changes in the table that can be used and are not completed.
  abbrev pub active_count : List Row → ℕ
  active_count rows = length (keep is_active_row rows)

  active_count-mutations :
      (rows : List Row) → length (keep is_active (mutations json_length rows)) ≡ active_count rows
  unfolding mutations
  active_count-mutations [] = refl
  active_count-mutations (row ∷ rows) = ground (arith, active_count-mutations rows)

  active_count-delete_key :
      (key : Text) (rows : List Row) → active_count (delete_key key rows) ≤ active_count rows
  active_count-delete_key key [] = omega arith
  active_count-delete_key key (row ∷ rows) = ground (arith, active_count-delete_key key rows)

  active_count-delete_keys :
      (keys : List Text) (rows : List Row)
      → active_count (delete_keys keys rows) ≤ active_count rows
  unfolding delete_keys
  active_count-delete_keys [] rows = omega arith
  active_count-delete_keys (key ∷ keys) rows =
      let rest = active_count-delete_keys keys (delete_key key rows) in
      omega (arith, rest, active_count-delete_key key rows)

  active_count-append :
      (rows : List Row) (row : Row) → active_count (rows ++ row ∷ []) ≤ suc (active_count rows)
  active_count-append [] row = ground arith
  active_count-append (x ∷ rows) row = ground (arith, active_count-append rows row)

  -- A change that the queue accepts stands in the table under its key as it was created, and at most a
  -- hundred usable changes that are not completed stand there then.
  pub queue_mutation-fits :
      (owner_matches : Bool) (owner : MutationOwner) (input : QueuedMutation) (rows : List Row)
      {rows' : List Row}
      → queue_mutation json_length owner_matches owner input rows ≡ returns rows'
      → (active_count rows' ≤ maximum_pending_mutations)
        × ((m : PendingMutation) × ((create_pending_mutation json_length input owner ≡ returns m)
              × (find_row (key_of m) rows' ≡ some (row_of m))))
  unfolding queue_mutation
  queue_mutation-fits owner_matches owner input rows {rows'} h =
      let readable = delete_keys (corrupt_keys json_length rows) rows in
      let queued = mutations json_length readable in
      let kept = delete_keys (completed_keys queued) readable in
      let (m, (created, h1)) =
        bind-eq-returns (create_pending_mutation json_length input owner) _ h in
      let fresh = not (any (λ q. text_eq (key_of q) (key_of m)) queued) in
      let room = ltb (length (keep is_active queued)) maximum_pending_mutations in
      let free = not (any (has_key (key_of m)) kept) in
      let (_, h2) = require-eq-returns owner_matches _ _ h1 in
      let (_, h3) = require-eq-returns fresh _ _ h2 in
      let (few, h4) = require-eq-returns room _ _ h3 in
      let (unused, h5) = require-eq-returns free _ _ h4 in
      let counted = active_count-mutations readable in
      let less = active_count-delete_keys (completed_keys queued) readable in
      let more = active_count-append kept (row_of m) in
      let bound : active_count (kept ++ row_of m ∷ []) ≤ maximum_pending_mutations =
        omega (arith, counted, less, more, ltb→lt _ _ few) in
      let e : kept ++ row_of m ∷ [] ≡ rows' = ground (arith, h5) in
      let last = find_row-last m kept (ground (arith, unused)) in
      (
        subst (λ t. active_count t ≤ maximum_pending_mutations) e bound,
        (m, (created, subst (λ t. find_row (key_of m) t ≡ some (row_of m)) e last)),
      )
