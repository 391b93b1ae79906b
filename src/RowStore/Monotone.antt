-- ===== src/RowStore/Monotone.antt =====
-- A number of a row that no change lowers is never lowered by an update, of this key or another.
use arctic_rss.Prelude.{
  ℕ, ◌≤◌, String, ◌≡◌, Bool, Option, none, some, inl, inr, Bool-cases, str_eq, eq_iff, arith,
}
use arctic_rss.RowStore.{RowStore, updated}

-- The number of the row, 0 where there is none.
abbrev pub level : {Row : Type 0} → (Row → ℕ) → Option Row → ℕ
level measure none = 0
level measure (some r) = measure r

module _ {Row : Type 0} (db : RowStore Row) (measure : Row → ℕ) where
  open db use {State, find, update_many, find-update_self, find-update_other}

  updated_grows :
      (test : Row → Bool) (change : Row → Row) (o : Option Row)
      → ((r : Row) → measure r ≤ measure (change r))
      → level measure o ≤ level measure (updated test change o)
  updated_grows test change none h = omega arith
  updated_grows test change (some r) h = ground (arith, h r)

  pub update_grows :
      (id other : String) (test : Row → Bool) (change : Row → Row) (s : State)
      → ((r : Row) → measure r ≤ measure (change r))
      → level measure (find other s) ≤ level measure (find other (update_many id test change s).1)
  update_grows id other test change s h = elim (Bool-cases (str_eq id other)) [
    | inl same ↦
        let e : id ≡ other = (eq_iff id other).0 same in
        rw (← e, find-update_self id test change s) (updated_grows test change (find id s) h)
    | inr differs ↦ rw (find-update_other id other test change s differs) (omega arith)
  ]
