-- ===== src/Lease/Source/Tests.antt =====
-- Two workers and one feed, over a table in memory.
use arctic_rss.Prelude.{
  ℕ, ◌<◌, String, ◌≡◌, refl, Bool, true, false, Option, none, some, List, [], ◌∷◌, str_eq,
  if◌then◌else◌, arith,
}
use arctic_rss.RowStore.{updated}
use arctic_rss.RowStore.Memory.{memory}
use arctic_rss.Lease.Time.{add_milliseconds}
use arctic_rss.Lease.Heartbeat.{
  Beat, timer, meanwhile, heartbeats, run_with_heartbeat, finish_heartbeat, heartbeat,
}
use arctic_rss.Lease.Source.{
  SourceRow, SourceRefreshLease, is_claimable, claim_row, confirm_claim, expires_is,
  claim_source_refresh_lease, renew_source_refresh_lease, release_source_refresh_lease,
  source_refresh_lease_where, renew_row, release_row, run_with_source_refresh_lease_heartbeat,
  source_refresh_lease_ms,
}
use arctic_rss.Lease.Source.Claim.{IsHeld, claimed, claim_exact}
use arctic_rss.Lease.Source.Fencing.{takeover_fences}
use arctic_rss.Lease.Source.Heartbeat.{renewal, generation, heartbeat_exclusive}
use arctic_rss.Lease.Source.Statements.{Statement, renew, run_statement, run_statements}

abbrev idle : SourceRow
idle = record {
  refresh_generation = 4;
  refresh_lease_expires_at = none;
  refresh_owner = none;
  refresh_started_at = none;
}

abbrev Table : Type 0
Table = String → Option SourceRow

abbrev table : Table
table k = if str_eq "feed-1" k then some idle else none

abbrev unchanged : Table → Table
unchanged t = t

abbrev first_claim : Option SourceRefreshLease × Table
first_claim = claim_source_refresh_lease (memory SourceRow) unchanged "feed-1" "ann" 1000 2000 table

abbrev lease_of_ann : SourceRefreshLease
lease_of_ann = record { generation = 5; id = "feed-1"; lease_expires_at = 3000; owner = "ann" }

abbrev second_claim : Option SourceRefreshLease × Table
second_claim =
    claim_source_refresh_lease (memory SourceRow) unchanged "feed-1" "bob" 3000 500 first_claim.1

abbrev lease_of_bob : SourceRefreshLease
lease_of_bob = record { generation = 6; id = "feed-1"; lease_expires_at = 4000; owner = "bob" }

source_leases : Unit {0}
unfolding claim_source_refresh_lease renew_source_refresh_lease release_source_refresh_lease
    is_claimable claim_row confirm_claim expires_is source_refresh_lease_where renew_row release_row
    add_milliseconds run_statement run_statements run_with_source_refresh_lease_heartbeat
    run_with_heartbeat finish_heartbeat heartbeats heartbeat
source_leases = tt

claims :
    (first_claim.0 ≡ some lease_of_ann)
    × (second_claim.0 ≡ some lease_of_bob)
    × ((claim_source_refresh_lease
          (memory SourceRow)
          unchanged
          "feed-1"
          "bob"
          2999
          500
          first_claim.1).0
        ≡ none)
    × ((claim_source_refresh_lease
          (memory SourceRow)
          unchanged
          "feed-2"
          "bob"
          2999
          500
          first_claim.1).0
        ≡ none)
unfolding source_leases
claims = (refl, refl, refl, refl)

claim_exact_example :
    ((claim_source_refresh_lease (memory SourceRow) unchanged "feed-1" "ann" 1000 2000 table).0
      ≡ claimed "feed-1" "ann" 1000 (add_milliseconds 1000 2000) (some idle))
    × (first_claim.1 "feed-1"
        ≡ updated
            (is_claimable 1000)
            (claim_row "ann" 1000 (add_milliseconds 1000 2000))
            (some idle))
claim_exact_example = claim_exact (memory SourceRow) "feed-1" "ann" 1000 2000 table

abbrev afterwards : List Statement
afterwards = renew lease_of_bob 3500 5000 ∷ []

takeover_fences_example :
    (lease_of_ann.generation < lease_of_bob.generation)
    × ((renew_source_refresh_lease
          (memory SourceRow)
          lease_of_ann
          3600
          5000
          (run_statements (memory SourceRow) afterwards second_claim.1)).0
        ≡ false)
    × ((renew_source_refresh_lease
            (memory SourceRow)
            lease_of_ann
            3600
            5000
            (run_statements (memory SourceRow) afterwards second_claim.1)).1
          "feed-1"
        ≡ run_statements (memory SourceRow) afterwards second_claim.1 "feed-1")
    × (release_source_refresh_lease
          (memory SourceRow)
          lease_of_ann
          3600
          (run_statements (memory SourceRow) afterwards second_claim.1)
          "feed-1"
        ≡ run_statements (memory SourceRow) afterwards second_claim.1 "feed-1")
unfolding source_leases
takeover_fences_example =
    takeover_fences (memory SourceRow) [] [] afterwards [] [] "feed-1" "ann" "bob" 1000 2000 3000
      500 table {lease1 = lease_of_ann} {lease2 = lease_of_bob} {s1 = first_claim.1}
      {s2 = second_claim.1} 3600 5000 refl refl

abbrev beats : List (Beat Table)
beats = meanwhile unchanged ∷ timer 2000 ∷ []

abbrev items_found : ℕ
items_found = 7

abbrev last_renewal : Option ℕ
last_renewal = some 2600

abbrev refresh : Option (Bool × ℕ) × Table
refresh =
    run_with_source_refresh_lease_heartbeat (memory SourceRow) lease_of_ann beats last_renewal
      (some items_found) first_claim.1

heartbeat_exclusive_example :
    (generation
        (memory SourceRow)
        lease_of_ann
        (heartbeats (renewal (memory SourceRow) lease_of_ann) true beats first_claim.1).1
      ≡ 5)
    × (items_found ≡ items_found)
    × (t : ℕ) × (r : SourceRow) × (last_renewal ≡ some t)
    × (refresh.1 "feed-1" ≡ some r)
    × IsHeld
        (record lease_of_ann { lease_expires_at = add_milliseconds t source_refresh_lease_ms })
        r
unfolding source_leases
heartbeat_exclusive_example =
    heartbeat_exclusive (memory SourceRow) lease_of_ann beats [] last_renewal items_found
      first_claim.1 {a = items_found} ((λ s. omega arith), (tt, tt)) refl refl
