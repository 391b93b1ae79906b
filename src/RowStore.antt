-- ===== src/RowStore.antt =====
-- The database client as the lease modules see it: the store argument of
-- src/lib/source-refresh-leases.ts and src/lib/smart-digest-run-leases.ts.
-- PostgreSQL and Prisma are not part of the repository, so they are a record of operations with
-- their documented behaviour: `updateMany` with the primary key in its `where` changes that row
-- where it meets the rest of the condition, and returns how many rows it changed.
pub mod Memory
pub mod Monotone
use arctic_rss.Prelude.{ℕ, String, ◌≡◌, Bool, false, Option, none, some, str_eq, if◌then◌else◌}

module _ {Row : Type 0} (test : Row → Bool) where
  abbrev pub hits : Option Row → ℕ
  hits none = 0
  hits (some r) = if test r then 1 else 0

  abbrev pub updated : (Row → Row) → Option Row → Option Row
  updated change none = none
  updated change (some r) = if test r then some (change r) else some r

-- The key stands for the `id` column; the test is the rest of `where`, the change is `data`.
pub record RowStore (Row : Type 0) : Type 1 where
  pub State : Type 0
  pub find : String → State → Option Row
  pub update_many : String → (Row → Bool) → (Row → Row) → State → ℕ × State
  pub count_lem :
      (id : String) (test : Row → Bool) (change : Row → Row) (s : State)
      → (update_many id test change s).0 ≡ hits test (find id s)
  pub find-update_self :
      (id : String) (test : Row → Bool) (change : Row → Row) (s : State)
      → find id (update_many id test change s).1 ≡ updated test change (find id s)
  pub find-update_other :
      (id other : String) (test : Row → Bool) (change : Row → Row) (s : State)
      → str_eq id other ≡ false
      → find other (update_many id test change s).1 ≡ find other s
