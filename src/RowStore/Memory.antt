-- ===== src/RowStore/Memory.antt =====
-- A table held as a function from keys to rows meets the description of the database client.
use arctic_rss.Prelude.{String, ◌≡◌, refl, Bool, false, Option, str_eq, eq_refl, if◌then◌else◌}
use arctic_rss.RowStore.{hits, updated, RowStore}

module _ {Row : Type 0} where
  abbrev update_table :
      String → (Row → Bool) → (Row → Row) → (String → Option Row) → String → Option Row
  update_table id test change s other =
      if str_eq id other then updated test change (s other) else s other

  pub find-update_table :
      (id : String) (test : Row → Bool) (change : Row → Row) (s : String → Option Row)
      → update_table id test change s id ≡ updated test change (s id)
  find-update_table id test change s = rw (eq_refl id)

  pub find-update_table_ne :
      (id other : String) (test : Row → Bool) (change : Row → Row) (s : String → Option Row)
      → str_eq id other ≡ false
      → update_table id test change s other ≡ s other
  find-update_table_ne id other test change s h = rw h

abbrev pub memory : (Row : Type 0) → RowStore Row
memory Row = record {
  State = String → Option Row;
  find = λ id s. s id;
  update_many = λ id test change s. (hits test (s id), update_table id test change s);
  count_lem = λ id test change s. refl;
  find-update_self = find-update_table;
  find-update_other = find-update_table_ne;
}
