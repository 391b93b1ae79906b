-- ===== src/Lease/Source/Claim.antt =====
-- A claim of a source's lease: when it succeeds, what it returns and what it leaves in the row.
use arctic_rss.Prelude.{
  ℕ, ◌+◌, String, ◌≡◌, refl, ap, true, Option, none, some, arith, eq_iff, eq_refl, ◌==◌,
  if◌then◌else◌,
}
use arctic_rss.RowStore.{RowStore, updated, hits}
use arctic_rss.Lease.Time.{add_milliseconds}
use arctic_rss.Lease.Source.{
  SourceRow, SourceRefreshLease, is_claimable, is_owner, expires_is, claim_row, confirm_claim,
  claim_source_refresh_lease,
}

-- The row is under the lease: its generation, owner and expiry.
pub record IsHeld (lease : SourceRefreshLease) (r : SourceRow) : Type 0 where
  pub generation : r.refresh_generation ≡ lease.generation
  pub owner : r.refresh_owner ≡ some lease.owner
  pub expires : r.refresh_lease_expires_at ≡ some lease.lease_expires_at

pub is_owner_sound : (o : Option String) (owner : String) → is_owner o owner ≡ true → o ≡ some owner
is_owner_sound none owner h = cc
is_owner_sound (some o) owner h = ap some ((eq_iff o owner).0 h)

expires_is_sound : (o : Option ℕ) (t : ℕ) → expires_is o t ≡ true → o ≡ some t
unfolding expires_is
expires_is_sound none t h = cc
expires_is_sound (some u) t h = ground arith

pub confirm_claim_sound :
    (id owner : String) (expires : ℕ) (o : Option SourceRow) {lease : SourceRefreshLease}
    → confirm_claim id owner expires o ≡ some lease
    → (r : SourceRow) × (o ≡ some r)
      × IsHeld lease r
      × (lease.id ≡ id)
      × (lease.owner ≡ owner)
      × (lease.lease_expires_at ≡ expires)
unfolding confirm_claim
confirm_claim_sound id owner expires none h = cc
confirm_claim_sound id owner expires (some r) h = (
  r,
  refl,
  record {
    generation = ground arith;
    owner = ground (arith, is_owner_sound r.refresh_owner owner);
    expires = ground (arith, expires_is_sound r.refresh_lease_expires_at expires);
  },
  ground arith,
  ground arith,
  ground arith,
)

-- The lease that a claim takes on a row that nobody else touches.
abbrev pub taken : String → String → ℕ → SourceRow → SourceRefreshLease
taken id owner expires r = record {
  generation = r.refresh_generation + 1;
  id = id;
  lease_expires_at = expires;
  owner = owner;
}

abbrev pub claimed : String → String → ℕ → ℕ → Option SourceRow → Option SourceRefreshLease
claimed id owner now expires none = none
claimed id owner now expires (some r) =
    if is_claimable now r then some (taken id owner expires r) else none

confirm_claim-updated :
    (id owner : String) (now expires : ℕ) (o : Option SourceRow)
    → (if hits (is_claimable now) o == 1
        then confirm_claim id owner expires
            (updated (is_claimable now) (claim_row owner now expires) o)
        else none)
      ≡ claimed id owner now expires o
unfolding confirm_claim claim_row
confirm_claim-updated id owner now expires none = refl
confirm_claim-updated id owner now expires (some r) = ground (arith, eq_refl owner)

module _ (db : RowStore SourceRow) where
  open db use {State, find, update_many, count_lem, find-update_self}

  -- A claim that nobody interrupts succeeds exactly where there is a row that has no expiry or one
  -- that has passed; then it returns the next generation, and the row is taken. Otherwise it returns
  -- `null` and leaves the row as it is.
  pub claim_exact :
      (id owner : String) (now duration_ms : ℕ) (s : State)
      → ((claim_source_refresh_lease db (λ t. t) id owner now duration_ms s).0
          ≡ claimed id owner now (add_milliseconds now duration_ms) (find id s))
        × (find id (claim_source_refresh_lease db (λ t. t) id owner now duration_ms s).1
            ≡ updated
                (is_claimable now)
                (claim_row owner now (add_milliseconds now duration_ms))
                (find id s))
  unfolding claim_source_refresh_lease
  claim_exact id owner now d s =
      let expires = add_milliseconds now d in
      let self = find-update_self id (is_claimable now) (claim_row owner now expires) s in
      let count = count_lem id (is_claimable now) (claim_row owner now expires) s in
      (
        ground (arith, count, self, confirm_claim-updated id owner now expires (find id s)),
        ground (arith, count, self),
      )

  -- Whatever others do meanwhile, a lease that is returned is in the row at that moment.
  pub claim-IsHeld :
      (meanwhile : State → State) (id owner : String) (now duration_ms : ℕ) (s : State)
      {lease : SourceRefreshLease} {s' : State}
      → claim_source_refresh_lease db meanwhile id owner now duration_ms s ≡ (some lease, s')
      → (r : SourceRow) × (find id s' ≡ some r)
        × IsHeld lease r
        × (lease.id ≡ id)
        × (lease.owner ≡ owner)
        × (lease.lease_expires_at ≡ add_milliseconds now duration_ms)
  unfolding claim_source_refresh_lease
  claim-IsHeld meanwhile id owner now d s {lease} h =
      let expires = add_milliseconds now d in
      let change = update_many id (is_claimable now) (claim_row owner now expires) s in
      let read = find id (meanwhile change.1) in
      let (r, present, held, same, mine, until) =
        confirm_claim_sound id owner expires read {lease = lease} (ground arith) in
      (r, ground arith, held, same, mine, until)
