-- ===== src/Batch.antt =====
-- The writing of refreshed items in batches (src/lib/refresh-write-batch.ts). The rows that
-- `findExistingItems` finds, the count that `createMany` returns and the test `shouldUpdateExisting` are
-- arguments, and so is, for each batch in turn, whether its callbacks return or throw.
pub mod Chunks
pub mod Counts
pub mod Order
pub mod Written
mod Tests
use arctic_rss.Prelude.{
  ℕ, zero, suc, ◌+◌, ◌-◌, max, Bool, true, false, Option, none, some, List, [], ◌∷◌, ◌++◌, ◌&&◌,
  ◌||◌, not, if◌then◌else◌, length, keep, take, any, is_some, map, Text, text_eq,
}

abbrev pub refresh_write_batch_size : ℕ
refresh_write_batch_size = 100

pub record Item : Type 0 where
  pub external_id : Text
  pub ingestion_fingerprint : Text
  pub source_generation : Option ℕ

pub record Existing : Type 0 where
  pub ingestion_fingerprint : Option Text
  pub source_generation : Option ℕ

pub record RefreshWriteStats : Type 0 where
  pub changed_count : ℕ
  pub duplicate_input_count : ℕ
  pub inserted_count : ℕ
  pub unchanged_count : ℕ

-- A statement of `createMany`, or the updates of a batch.
pub data Write : Type 0 where
  creates updates : List Item → Write

-- `map.set`: a key that is there keeps its place.
unfoldable pub set_item : Item → List Item → List Item
set_item item [] = item ∷ []
set_item item (x ∷ xs) =
    let rest = set_item item xs in
    if text_eq x.external_id item.external_id then item ∷ xs else x ∷ rest

unfoldable pub set_items : List Item → List Item → List Item
unfolding set_item
set_items [] unique = unique
set_items (item ∷ items) unique = set_items items (set_item item unique)

abbrev pub deduplicate_by_external_id : List Item → List Item
deduplicate_by_external_id items = set_items items []

unfoldable pub drop : ℕ → List Item → List Item
drop zero xs = xs
drop (suc n) [] = []
drop (suc n) (x ∷ xs) = drop n xs

-- Every round removes an item at least, so that the number of the items is fuel enough.
unfoldable pub chunks_from : ℕ → ℕ → List Item → List (List Item)
unfolding drop
chunks_from zero size xs = []
chunks_from (suc fuel) size [] = []
chunks_from (suc fuel) size (x ∷ xs) =
    take size (x ∷ xs) ∷ chunks_from fuel size (drop size (x ∷ xs))

unfoldable pub chunk : List Item → ℕ → List (List Item)
unfolding chunks_from
chunk items size = chunks_from (length items) (max 1 size) items

-- The writes before the first that throws, and whether none does. A batch that throws may have been
-- written in part.
unfoldable pub perform : (ℕ → Bool) → ℕ → List Write → List Write × Bool
perform returns i [] = ([], true)
perform returns i (w ∷ ws) =
    let (done, all_done) = perform returns (i + 1) ws in
    if returns i then (w ∷ done, all_done) else ([], false)

unfoldable pub inserted : (List Item → ℕ) → List (List Item) → ℕ
inserted count [] = 0
inserted count (batch ∷ batches) = count batch + inserted count batches

abbrev differs : Option Text → Text → Bool
differs none fingerprint = true
differs (some old) fingerprint = not (text_eq old fingerprint)

module _ (find_existing : Text → Option Existing) (should_update : Existing → Item → Bool) where
  abbrev pub is_new : Item → Bool
  is_new item = not (is_some (find_existing item.external_id))

  abbrev pub is_changed : Item → Bool
  is_changed item = elim (find_existing item.external_id) [
    | none ↦ false
    | some e ↦ differs e.ingestion_fingerprint item.ingestion_fingerprint || should_update e item
  ]

  -- The writes in order, and the statistics, if no write throws.
  unfoldable pub plan_writes : ℕ → (List Item → ℕ) → List Item → List Write × RefreshWriteStats
  unfolding chunk inserted
  plan_writes batch_size count items =
      let unique = deduplicate_by_external_id items in
      let new_items = keep is_new unique in
      let changed_items = keep is_changed unique in
      let created = chunk new_items batch_size in
      (
        map creates created ++ map updates (chunk changed_items batch_size),
        record {
          changed_count = length changed_items;
          duplicate_input_count = length items - length unique;
          inserted_count = inserted count created;
          unchanged_count = length unique - length new_items - length changed_items;
        },
      )

  -- The statistics, unless a callback throws, with the writes that have been made.
  unfoldable pub write_refresh_items :
      ℕ → (List Item → ℕ) → (ℕ → Bool) → List Item → List Write × Option RefreshWriteStats
  unfolding plan_writes perform
  write_refresh_items batch_size count returns items =
      let (writes, stats) = plan_writes batch_size count items in
      let (done, all_done) = perform returns 0 writes in
      (done, if all_done then some stats else none)
