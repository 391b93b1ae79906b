-- ===== src/Mobile/Flush/Recovers.antt =====
-- The recovery of interrupted changes, as a relation.
use arctic_rss.Prelude.{◌≤◌, ◌≡◌, true, List, [], ◌∷◌, Text, arith}
use arctic_rss.Mobile.Mutation.{PendingMutation}
use arctic_rss.Mobile.Queue.{Row, key_of, write_pending_mutation}
use arctic_rss.Mobile.Flush.Unsettled.{
  state_unsettled, unsettled_count, has_unsettled, Covered, Covered-write, unsettled_count-write,
  has_unsettled-write, has_unsettled-written,
}

-- A pass of the recovery over the changes: each stays, or is written as one that may still be sent.
pub data Recovers : List PendingMutation → List Row → List PendingMutation → List Row → Type 0 where
  nothing_left : {rows : List Row} → Recovers [] rows [] rows
  stays :
      {m : PendingMutation} {ms later : List PendingMutation} {rows written : List Row}
      → Recovers ms rows later written
      → Recovers (m ∷ ms) rows (m ∷ later) written
  renewed :
      {m r : PendingMutation} {ms later : List PendingMutation} {rows written : List Row}
      → state_unsettled m.state ≡ true
      → state_unsettled r.state ≡ true
      → key_of r ≡ key_of m
      → Recovers ms (write_pending_mutation r rows) later written
      → Recovers (m ∷ ms) rows (r ∷ later) written

Recovers-keeps :
    (key : Text) {ms later : List PendingMutation} {rows written : List Row}
    → Recovers ms rows later written
    → has_unsettled key rows ≡ true
    → has_unsettled key written ≡ true
Recovers-keeps key nothing_left u = u
Recovers-keeps key (stays rest) u = Recovers-keeps key rest u
Recovers-keeps key (renewed {r = r} {rows = rows} _ open_state _ rest) u =
    Recovers-keeps key rest (has_unsettled-write key r rows open_state u)

pub Recovers-Covered :
    {ms later : List PendingMutation} {rows written : List Row}
    → Recovers ms rows later written
    → Covered ms rows
    → Covered later written
Recovers-Covered nothing_left c = tt
Recovers-Covered (stays {m = m} rest) (c, cs) =
    (λ u. Recovers-keeps (key_of m) rest (c u), Recovers-Covered rest cs)
Recovers-Covered (renewed {r = r} {ms = ms} {rows = rows} _ open_state _ rest) (c, cs) = (
  λ u. Recovers-keeps (key_of r) rest (has_unsettled-written r rows open_state),
  Recovers-Covered rest (Covered-write ms r rows open_state cs),
)

pub Recovers-count :
    {ms later : List PendingMutation} {rows written : List Row}
    → Recovers ms rows later written
    → Covered ms rows
    → unsettled_count written ≤ unsettled_count rows
Recovers-count nothing_left c = omega arith
Recovers-count (stays rest) (c, cs) = Recovers-count rest cs
Recovers-count (renewed {m = m} {r = r} {ms = ms} {rows = rows} was open_state key rest) (c, cs) =
    let there : has_unsettled (key_of r) rows ≡ true = rw key (c was) in
    let wrote = unsettled_count-write r rows there in
    let later = Recovers-count rest (Covered-write ms r rows open_state cs) in
    omega (arith, wrote, later)
