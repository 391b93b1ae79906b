-- ===== src/Batch/Tests.antt =====
-- A refresh of four items in batches of one.
use arctic_rss.Prelude.{
  ◌≡◌, refl, Bool, true, false, Option, none, some, List, [], ◌∷◌, length, if◌then◌else◌, ◌==◌,
  Text, codes, text_eq,
}
use arctic_rss.Batch.{
  Item, Existing, RefreshWriteStats, Write, creates, updates, set_item, set_items, drop,
  chunks_from, chunk, perform, inserted, plan_writes, write_refresh_items,
}
use arctic_rss.Batch.Written.{IsWritten, write_refresh_items-IsWritten}

abbrev item : Text → Text → Item
item key fingerprint = record {
  external_id = key;
  ingestion_fingerprint = fingerprint;
  source_generation = none;
}

abbrev find_existing : Text → Option Existing
find_existing key =
    if text_eq key (codes "b")
    then some (record { ingestion_fingerprint = some (codes "1"); source_generation = none })
    else none

abbrev never : Existing → Item → Bool
never e x = false

abbrev items : List Item
items =
    item (codes "a") (codes "1")
    ∷ item (codes "b") (codes "2")
    ∷ item (codes "a") (codes "3")
    ∷ item (codes "c") (codes "1")
    ∷ []

abbrev writes : List Write
writes =
    creates (item (codes "a") (codes "3") ∷ [])
    ∷ creates (item (codes "c") (codes "1") ∷ [])
    ∷ updates (item (codes "b") (codes "2") ∷ [])
    ∷ []

abbrev stats : RefreshWriteStats
stats = record {
  changed_count = 1;
  duplicate_input_count = 1;
  inserted_count = 2;
  unchanged_count = 0;
}

written : write_refresh_items find_existing never 1 length (λ i. true) items ≡ (writes, some stats)
unfolding write_refresh_items plan_writes set_items set_item chunk chunks_from drop perform inserted
    text_eq
written = refl

-- A callback that throws ends the refresh after the batches before it.
broken_off : (write_refresh_items find_existing never 1 length (λ i. i == 0) items).1 ≡ none
unfolding write_refresh_items plan_writes set_items set_item chunk chunks_from drop perform inserted
    text_eq
broken_off = refl

write_refresh_items-IsWritten_example : IsWritten find_existing never 1 items writes stats
write_refresh_items-IsWritten_example =
    write_refresh_items-IsWritten find_existing never 1 length (λ i. true) items writes stats
      (λ batch. refl) written
