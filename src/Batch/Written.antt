-- ===== src/Batch/Written.antt =====
-- What a refresh writes.
use arctic_rss.Prelude.{
  ℕ, ◌+◌, max, ◌≡◌, refl, ap, sym, ◌∙◌, subst, inl, inr, Bool, true, false, Option, none, some,
  List, [], ◌∷◌, ◌++◌, if◌then◌else◌, length, keep, map, All, Text, arith, Bool-cases,
}
use arctic_rss.Batch.{
  Item, Existing, RefreshWriteStats, Write, creates, updates, deduplicate_by_external_id, is_new,
  is_changed, chunk, perform, inserted, plan_writes, write_refresh_items,
}
use arctic_rss.Batch.Chunks.{concat, IsBatch, concat-chunk, chunk-IsBatch}
use arctic_rss.Batch.Order.{
  first_keys, keys_of, distinct, deduplicate-first_keys, deduplicate-distinct,
}
use arctic_rss.Batch.Counts.{
  find_item, last_item, deduplicate-last, length-deduplicate, inserted-length, new-changed,
}

told_if :
    (b : Bool) (x y : RefreshWriteStats)
    → (if b then some x else none) ≡ some y
    → (b ≡ true) × (x ≡ y)
told_if true x y e = (refl, ground (arith, e))
told_if false x y e = cc

module _ (find_existing : Text → Option Existing) (should_update : Existing → Item → Bool) where
  -- The items without duplicates have each key of the input once, in the order in which the keys came
  -- first, and of each key they have the last item; the writes create those that are new and then
  -- update those that are changed, each once and in order, in batches within the size; and the
  -- statistics count every item once.
  pub record IsWritten (size : ℕ) (items : List Item) (writes : List Write)
      (stats : RefreshWriteStats) : Type 0 where
    pub unique : List Item
    pub created : List (List Item)
    pub updated : List (List Item)
    pub once : distinct (keys_of unique) ≡ true
    pub first_order : keys_of unique ≡ first_keys items
    pub latest : (key : Text) → find_item key unique ≡ last_item key items
    pub in_order : writes ≡ map creates created ++ map updates updated
    pub creates_new : concat created ≡ keep (is_new find_existing should_update) unique
    pub updates_changed : concat updated ≡ keep (is_changed find_existing should_update) unique
    pub created_batches : All (IsBatch (max 1 size)) created
    pub updated_batches : All (IsBatch (max 1 size)) updated
    pub duplicates : stats.duplicate_input_count + length unique ≡ length items
    pub created_all : stats.inserted_count ≡ length (concat created)
    pub updated_all : stats.changed_count ≡ length (concat updated)
    pub counted :
        stats.duplicate_input_count + stats.inserted_count + stats.changed_count
          + stats.unchanged_count
        ≡ length items

  perform-all :
      (returns : ℕ → Bool) (i : ℕ) (ws : List Write)
      → (perform returns i ws).1 ≡ true
      → (perform returns i ws).0 ≡ ws
  unfolding perform
  perform-all returns i [] h = refl
  perform-all returns i (w ∷ ws) h = elim (Bool-cases (returns i)) [
    | inl goes_on ↦
        let rest : (perform returns (i + 1) ws).1 ≡ true = ground (arith, h, goes_on) in
        rw (perform, goes_on, perform-all returns (i + 1) ws rest) refl
    | inr throws ↦ absurd (ground (arith, h, throws))
  ]

  plan_writes-IsWritten :
      (size : ℕ) (count : List Item → ℕ) (items : List Item)
      → ((batch : List Item) → count batch ≡ length batch)
      → IsWritten size items
          (plan_writes find_existing should_update size count items).0
          (plan_writes find_existing should_update size count items).1
  unfolding plan_writes
  plan_writes-IsWritten size count items h =
      let unique = deduplicate_by_external_id items in
      let new_items = keep (is_new find_existing should_update) unique in
      let changed_items = keep (is_changed find_existing should_update) unique in
      let created_all = concat-chunk new_items size in
      let all_counted : inserted count (chunk new_items size) ≡ length new_items =
        inserted-length count (chunk new_items size) h
        ∙ ap (λ (xs : List Item). length xs) created_all in
      record {
        unique = unique;
        created = chunk new_items size;
        updated = chunk changed_items size;
        once = deduplicate-distinct items;
        first_order = deduplicate-first_keys items;
        latest = λ key. deduplicate-last key items;
        in_order = refl;
        creates_new = created_all;
        updates_changed = concat-chunk changed_items size;
        created_batches = chunk-IsBatch new_items size;
        updated_batches = chunk-IsBatch changed_items size;
        duplicates = omega (arith, length-deduplicate items);
        created_all = inserted-length count (chunk new_items size) h;
        updated_all = ap (λ (xs : List Item). length xs) (sym (concat-chunk changed_items size));
        counted = omega (
          arith,
          all_counted,
          length-deduplicate items,
          new-changed find_existing should_update unique,
        );
      }

  -- If a refresh returns statistics, and each `createMany` has counted the items of its batch, then the
  -- items without duplicates have each key of the input once, in the order in which the keys came first,
  -- with the last item of the key; the writes created those of them that were new and then updated those
  -- that had changed, in this order, in batches of at least one item and at most the size; and the
  -- statistics count the duplicates, the created and the updated, and every item of the input once.
  pub write_refresh_items-IsWritten :
      (size : ℕ) (count : List Item → ℕ) (returns : ℕ → Bool) (items : List Item)
      (writes : List Write) (stats : RefreshWriteStats)
      → ((batch : List Item) → count batch ≡ length batch)
      → write_refresh_items find_existing should_update size count returns items
        ≡ (writes, some stats)
      → IsWritten size items writes stats
  unfolding write_refresh_items
  write_refresh_items-IsWritten size count returns items writes stats h e =
      let planned = plan_writes find_existing should_update size count items in
      let answered = ap (λ (r : List Write × Option RefreshWriteStats). r.1) e in
      let all_done : (perform returns 0 planned.0).1 ≡ true =
        (told_if (perform returns 0 planned.0).1 planned.1 stats answered).0 in
      let same : planned.0 ≡ writes =
        sym (perform-all returns 0 planned.0 all_done)
        ∙ ap (λ (r : List Write × Option RefreshWriteStats). r.0) e in
      let told : planned.1 ≡ stats =
        (told_if (perform returns 0 planned.0).1 planned.1 stats answered).1 in
      subst (λ ws. IsWritten size items ws stats) same
        (subst (λ st. IsWritten size items planned.0 st) told
          (plan_writes-IsWritten size count items h))
