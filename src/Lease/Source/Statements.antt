-- ===== src/Lease/Source/Statements.antt =====
-- What each statement of the lease protocol does to the row of its source.
use arctic_rss.Prelude.{
  ℕ, ◌≤◌, String, ◌≡◌, refl, Bool, Option, none, some, List, [], ◌∷◌, arith, str_eq, eq_iff, inl,
  inr, Bool-cases,
}
use arctic_rss.RowStore.{RowStore, updated}
use arctic_rss.Lease.Time.{add_milliseconds}
use arctic_rss.Lease.Source.{
  SourceRow, SourceRefreshLease, is_claimable, claim_row, renew_row, release_row,
  renew_source_refresh_lease, release_source_refresh_lease,
}

-- The statements that the clients of the table run, each of them atomic.
pub data Statement : Type 0 where
  claim : String → String → ℕ → ℕ → Statement
  renew : SourceRefreshLease → ℕ → ℕ → Statement
  release : SourceRefreshLease → ℕ → Statement

module _ (db : RowStore SourceRow) where
  open db use {State, find, update_many, count_lem, find-update_self, find-update_other}

  unfoldable pub run_statement : Statement → State → State
  run_statement (claim id owner now duration_ms) s =
      (update_many id (is_claimable now) (claim_row owner now (add_milliseconds now duration_ms))
        s).1
  run_statement (renew lease now duration_ms) s =
      (renew_source_refresh_lease db lease now duration_ms s).1
  run_statement (release lease now) s = release_source_refresh_lease db lease now s

  unfoldable pub run_statements : List Statement → State → State
  run_statements [] s = s
  run_statements (t ∷ ts) s = run_statements ts (run_statement t s)

-- The generation of a row, 0 where there is none.
abbrev pub generation_of : Option SourceRow → ℕ
generation_of none = 0
generation_of (some r) = r.refresh_generation

updated_claim_grows :
    (owner : String) (now expires : ℕ) (o : Option SourceRow)
    → generation_of o ≤ generation_of (updated (is_claimable now) (claim_row owner now expires) o)
unfolding claim_row
updated_claim_grows owner now expires none = omega arith
updated_claim_grows owner now expires (some r) = ground arith

updated_renew_grows :
    (test : SourceRow → Bool) (expires : ℕ) (o : Option SourceRow)
    → generation_of (updated test (renew_row expires) o) ≡ generation_of o
unfolding renew_row
updated_renew_grows test expires none = refl
updated_renew_grows test expires (some r) = ground arith

updated_release_grows :
    (test : SourceRow → Bool) (now : ℕ) (o : Option SourceRow)
    → generation_of (updated test (release_row now) o) ≡ generation_of o
unfolding release_row
updated_release_grows test now none = refl
updated_release_grows test now (some r) = ground arith

module _ (db : RowStore SourceRow) where
  open db use {State, find, update_many, count_lem, find-update_self, find-update_other}

  -- An update whose change keeps or raises the generation does so for every key.
  find-update_grows :
      (id other : String) (test : SourceRow → Bool) (change : SourceRow → SourceRow) (s : State)
      → ((o : Option SourceRow) → generation_of o ≤ generation_of (updated test change o))
      → generation_of (find other s) ≤ generation_of (find other (update_many id test change s).1)
  find-update_grows id other test change s h = elim (Bool-cases (str_eq id other)) [
    | inl same ↦
        let e : id ≡ other = (eq_iff id other).0 same in
        rw (← e, find-update_self id test change s) (h (find id s))
    | inr differs ↦ rw (find-update_other id other test change s differs) (omega arith)
  ]

  pub run_statement_grows :
      (t : Statement) (other : String) (s : State)
      → generation_of (find other s) ≤ generation_of (find other (run_statement db t s))
  unfolding run_statement renew_source_refresh_lease release_source_refresh_lease
  run_statement_grows (claim id owner now d) other s =
      find-update_grows id other _ _ s (updated_claim_grows owner now (add_milliseconds now d))
  run_statement_grows (renew lease now d) other s =
      find-update_grows lease.id other _ _ s (λ o. omega (arith, updated_renew_grows _ _ o))
  run_statement_grows (release lease now) other s =
      find-update_grows lease.id other _ _ s (λ o. omega (arith, updated_release_grows _ _ o))

  -- The generation of a source never falls, whatever the clients run.
  pub run_statements_grows :
      (ts : List Statement) (other : String) (s : State)
      → generation_of (find other s) ≤ generation_of (find other (run_statements db ts s))
  unfolding run_statements
  run_statements_grows [] other s = omega arith
  run_statements_grows (t ∷ ts) other s =
      omega
        (arith, run_statement_grows t other s, run_statements_grows ts other (run_statement db t s))
