-- ===== src/Lease/Digest/Tests.antt =====
-- Two workers and one Smart Digest run, over a table in memory.
use arctic_rss.Prelude.{
  ℕ, ◌<◌, String, ◌≡◌, refl, Bool, true, false, Option, none, some, List, [], ◌∷◌, str_eq,
  if◌then◌else◌, arith,
}
use arctic_rss.RowStore.Memory.{memory}
use arctic_rss.Lease.Time.{add_milliseconds}
use arctic_rss.Lease.Heartbeat.{
  Beat, timer, meanwhile, heartbeats, run_with_heartbeat, finish_heartbeat, heartbeat,
}
use arctic_rss.Lease.Digest.{
  RunRow, processing, completed, failed, SmartDigestRunLease, is_claimable, claim_row,
  confirm_claim, claim_smart_digest_run, renew_smart_digest_run_lease, smart_digest_run_lease_where,
  renew_row, run_with_smart_digest_run_lease_heartbeat, smart_digest_processing_lease_ms,
}
use arctic_rss.Lease.Digest.Fencing.{
  Statement, renew, run_statement, run_statements, run_takeover_fences,
}
use arctic_rss.Lease.Digest.Heartbeat.{renewal, attempt, run_heartbeat_exclusive}

abbrev broken : RunRow
broken = record {
  attempt = 1;
  error_message = some "no model";
  last_heartbeat_at = none;
  lease_expires_at = none;
  lease_owner = none;
  processing_started_at = none;
  status = failed;
}

abbrev Table : Type 0
Table = String → Option RunRow

abbrev table : Table
table k =
    if str_eq "run-1" k
    then some broken
    else (if str_eq "run-2" k then some (record broken { status = completed }) else none)

abbrev unchanged : Table → Table
unchanged t = t

abbrev first_claim : Option SmartDigestRunLease × Table
first_claim = claim_smart_digest_run (memory RunRow) unchanged "run-1" "ann" 1000 2000 table

abbrev lease_of_ann : SmartDigestRunLease
lease_of_ann = record { attempt = 2; id = "run-1"; lease_expires_at = 3000; lease_owner = "ann" }

abbrev second_claim : Option SmartDigestRunLease × Table
second_claim = claim_smart_digest_run (memory RunRow) unchanged "run-1" "bob" 3000 500 first_claim.1

abbrev lease_of_bob : SmartDigestRunLease
lease_of_bob = record { attempt = 3; id = "run-1"; lease_expires_at = 4000; lease_owner = "bob" }

digest_leases : Unit {0}
unfolding claim_smart_digest_run renew_smart_digest_run_lease is_claimable claim_row confirm_claim
    smart_digest_run_lease_where renew_row add_milliseconds run_statement run_statements
    run_with_smart_digest_run_lease_heartbeat run_with_heartbeat finish_heartbeat heartbeats
    heartbeat
digest_leases = tt

claims :
    (first_claim.0 ≡ some lease_of_ann)
    × (second_claim.0 ≡ some lease_of_bob)
    × ((claim_smart_digest_run (memory RunRow) unchanged "run-1" "bob" 2999 500 first_claim.1).0
        ≡ none)
    × ((claim_smart_digest_run (memory RunRow) unchanged "run-2" "bob" 2999 500 table).0 ≡ none)
unfolding digest_leases
claims = (refl, refl, refl, refl)

abbrev afterwards : List Statement
afterwards = renew lease_of_bob 3500 5000 ∷ []

run_takeover_fences_example :
    (lease_of_ann.attempt < lease_of_bob.attempt)
    × ((renew_smart_digest_run_lease
          (memory RunRow)
          lease_of_ann
          3600
          5000
          (run_statements (memory RunRow) afterwards second_claim.1)).0
        ≡ false)
    × ((renew_smart_digest_run_lease
            (memory RunRow)
            lease_of_ann
            3600
            5000
            (run_statements (memory RunRow) afterwards second_claim.1)).1
          "run-1"
        ≡ run_statements (memory RunRow) afterwards second_claim.1 "run-1")
unfolding digest_leases
run_takeover_fences_example =
    run_takeover_fences (memory RunRow) [] [] afterwards [] [] "run-1" "ann" "bob" 1000 2000 3000
      500 table {lease1 = lease_of_ann} {lease2 = lease_of_bob} {s1 = first_claim.1}
      {s2 = second_claim.1} 3600 5000 refl refl

abbrev beats : List (Beat Table)
beats = meanwhile unchanged ∷ timer 2000 ∷ []

abbrev articles_found : ℕ
articles_found = 3

abbrev last_renewal : Option ℕ
last_renewal = some 2600

abbrev digest : Option (Bool × ℕ) × Table
digest =
    run_with_smart_digest_run_lease_heartbeat (memory RunRow) lease_of_ann beats last_renewal
      (some articles_found) first_claim.1

run_heartbeat_exclusive_example :
    (attempt
        (memory RunRow)
        lease_of_ann
        (heartbeats (renewal (memory RunRow) lease_of_ann) true beats first_claim.1).1
      ≡ 2)
    × (articles_found ≡ articles_found)
    × (t : ℕ) × (r : RunRow) × (last_renewal ≡ some t)
    × (digest.1 "run-1" ≡ some r)
    × (r.attempt ≡ 2)
    × (r.status ≡ processing)
    × (r.lease_expires_at ≡ some (add_milliseconds t smart_digest_processing_lease_ms))
unfolding digest_leases
run_heartbeat_exclusive_example =
    run_heartbeat_exclusive (memory RunRow) lease_of_ann beats [] last_renewal articles_found
      first_claim.1 {a = articles_found} ((λ s. omega arith), (tt, tt)) refl refl
