-- ===== src/Lease/Heartbeat.antt =====
-- The heartbeat of a lease while its work runs: the timer, the chain of renewals and the renewal at
-- the end. The three lease modules have this loop in one form
-- (runWithSourceRefreshLeaseHeartbeat in src/lib/source-refresh-leases.ts,
-- runWithSmartDigestRunLeaseHeartbeat in src/lib/smart-digest-run-leases.ts,
-- runWithOpmlImportEntryLeaseHeartbeat in src/lib/opml-import-leases.ts), each over its own renewal.
use arctic_rss.Prelude.{
  ℕ, ◌≤◌, ◌≡◌, refl, ap, Bool, true, false, Option, none, some, List, [], ◌∷◌, ◌++◌, arith, All,
  All-left, All-right, if◌then◌else◌,
}

-- What happens meanwhile: a round of the interval timer, and what other clients do. A renewal whose
-- promise is rejected may have reached the database (its reply is lost) or not.
pub data Beat (State : Type 0) : Type 0 where
  timer : ℕ → Beat State
  timer_lost : ℕ → Beat State
  timer_failed : Beat State
  meanwhile : (State → State) → Beat State

module _ {State : Type 0} (renew : ℕ → State → Bool × State) where
  -- The callback of `setInterval`; the rounds run one after another, on the promise `renewal`.
  unfoldable pub heartbeat : Bool → Beat State → State → Bool × State
  heartbeat held (timer now) s = if held then renew now s else (false, s)
  heartbeat held (timer_lost now) s = if held then (false, (renew now s).1) else (false, s)
  heartbeat held timer_failed s = (false, s)
  heartbeat held (meanwhile other) s = (held, other s)

  unfoldable pub heartbeats : Bool → List (Beat State) → State → Bool × State
  heartbeats held [] s = (held, s)
  heartbeats held (b ∷ bs) s = let (held', s') = heartbeat held b s in heartbeats held' bs s'

  module _ {ℓ} {Result : Type ℓ} where
    -- `none` is a rejected promise. The last renewal is at a time, or is rejected itself.
    unfoldable pub finish_heartbeat :
        Option ℕ → Result → Bool → State → Option (Bool × Result) × State
    finish_heartbeat now result false s = (some (false, result), s)
    finish_heartbeat none result true s = (none, s)
    finish_heartbeat (some now) result true s =
        let (held, s') = renew now s in (some (held, result), s')

    -- The work ends by a result or by an exception.
    unfoldable pub run_with_heartbeat :
        List (Beat State) → Option ℕ → Option Result → State → Option (Bool × Result) × State
    run_with_heartbeat beats now none s = (none, (heartbeats true beats s).1)
    run_with_heartbeat beats now (some result) s =
        let (held, s') = heartbeats true beats s in finish_heartbeat now result held s'

-- A number of the database that renewals do not lower. Where others do not lower it either, an answer
-- `leaseHeld: true` by a renewal that wants the number at its old value means that it stayed there.
module _ {State : Type 0} (renew : ℕ → State → Bool × State) (level : State → ℕ)
    (renew_grows : (now : ℕ) (s : State) → level s ≤ level (renew now s).1) where
  abbrev pub Orderly : Beat State → Type 0
  Orderly (meanwhile other) = (s : State) → level s ≤ level (other s)
  Orderly _ = Unit

  heartbeat_grows :
      (held : Bool) (b : Beat State) (s : State)
      → Orderly b
      → level s ≤ level (heartbeat renew held b s).1
  unfolding heartbeat
  heartbeat_grows true (timer now) s g = renew_grows now s
  heartbeat_grows false (timer now) s g = omega arith
  heartbeat_grows true (timer_lost now) s g = renew_grows now s
  heartbeat_grows false (timer_lost now) s g = omega arith
  heartbeat_grows held timer_failed s g = omega arith
  heartbeat_grows held (meanwhile other) s g = g s

  heartbeats_grows :
      (held : Bool) (bs : List (Beat State)) (s : State)
      → All Orderly bs
      → level s ≤ level (heartbeats renew held bs s).1
  unfolding heartbeats
  heartbeats_grows held [] s g = omega arith
  heartbeats_grows held (b ∷ bs) s (g, gs) =
      let t = heartbeat renew held b s in
      omega (arith, heartbeat_grows held b s g, heartbeats_grows t.0 bs t.1 gs)

  heartbeats-append :
      (held : Bool) (bs cs : List (Beat State)) (s : State)
      → heartbeats renew held (bs ++ cs) s
        ≡ heartbeats renew (heartbeats renew held bs s).0 cs (heartbeats renew held bs s).1
  unfolding heartbeats
  heartbeats-append held [] cs s = refl
  heartbeats-append held (b ∷ bs) cs s =
      let t = heartbeat renew held b s in heartbeats-append t.0 bs cs t.1

  finish_held :
      {A : Type 0} (now : Option ℕ) (result : A) (held : Bool) (s : State) {a : A}
      → (finish_heartbeat renew now result held s).0 ≡ some (true, a)
      → (t : ℕ) × (now ≡ some t)
        × (a ≡ result)
        × ((renew t s).0 ≡ true)
        × ((finish_heartbeat renew now result held s).1 ≡ (renew t s).1)
  unfolding finish_heartbeat
  finish_held now result false s h = cc
  finish_held none result true s h = cc
  finish_held (some t) result true s h = (t, refl, ground arith, ground arith, refl)

  pub run_keeps_level :
      {A : Type 0} (k : ℕ) (before after : List (Beat State)) (now : Option ℕ) (result : A)
      (s : State) {a : A}
      → ((t : ℕ) (u : State) → (renew t u).0 ≡ true → level u ≡ k)
      → All Orderly (before ++ after)
      → level s ≡ k
      → (run_with_heartbeat renew (before ++ after) now (some result) s).0 ≡ some (true, a)
      → (level (heartbeats renew true before s).1 ≡ k)
        × (a ≡ result)
        × (t : ℕ) × (u : State) × (now ≡ some t)
        × ((renew t u).0 ≡ true)
        × ((run_with_heartbeat renew (before ++ after) now (some result) s).1 ≡ (renew t u).1)
  unfolding run_with_heartbeat
  run_keeps_level k before after now result s exact gs start h =
      let middle = heartbeats renew true before s in
      let last = heartbeats renew true (before ++ after) s in
      let (t, at, same, renewed, left) = finish_held now result last.0 last.1 h in
      let low = heartbeats_grows true before s (All-left Orderly before after gs) in
      let high = heartbeats_grows middle.0 after middle.1 (All-right Orderly before after gs) in
      let joined = ap (λ (w : Bool × State). level w.1) (heartbeats-append true before after s) in
      (
        omega (arith, low, high, joined, start, exact t last.1 renewed),
        same,
        t,
        last.1,
        at,
        renewed,
        left,
      )
