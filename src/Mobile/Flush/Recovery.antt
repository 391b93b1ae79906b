-- ===== src/Mobile/Flush/Recovery.antt =====
-- What the choice of the next change to send leaves in the table.
use arctic_rss.Prelude.{
  ℕ, ◌≤◌, ◌≡◌, refl, ap, sym, ◌∙◌, subst, inl, inr, Bool, true, false, Option, none, some, List, [],
  ◌∷◌, Text, codes, arith, Bool-cases,
}
use arctic_rss.Mobile.Mutation.{PendingMutation, QueuedMutation, Attempt, returns, ◌>>=◌}
use arctic_rss.Mobile.Replay.{
  Failure, is_replayable_mutation, start_pending_mutation, fail_pending_mutation, state_replayable,
}
use arctic_rss.Mobile.Replay.Validity.{bind-eq-returns, require-eq-returns}
use arctic_rss.Mobile.Replay.Outcome.{act, fail, start, Moves, act-Moves, act-SameChange}
use arctic_rss.Mobile.Queue.{
  Row, key_of, delete_keys, write_pending_mutation, mutations, corrupt_keys, by_time, recover,
  is_interrupted, first_replayable, start_first, next_replayable_mutation, is_permanent_failure,
}
use arctic_rss.Mobile.Flush.Unsettled.{
  state_unsettled, unsettled_count, has_unsettled, Covered, Covered-by_time, mutations-Covered,
  unsettled_count-write, unsettled_count-delete_keys, has_unsettled-written,
}
use arctic_rss.Mobile.Flush.Recovers.{
  Recovers, Recovers-Covered, Recovers-count, nothing_left, renewed, stays,
}

moved_unsettled :
    {m r : PendingMutation} {code : Text} {now : ℕ}
    → Moves m r (fail code Failure.retryable_failure now)
    → state_unsettled r.state ≡ true
moved_unsettled (Moves.broken _ _ _ _ state _) = rw state refl

returned-pair {ℓ κ μ} :
    {A : Type ℓ} {B : Type κ} (P : A → B → Type μ) {a a' : A} {b b' : B}
    → ◌≡◌ {A = Attempt (A × B)} (returns (a, b)) (returns (a', b'))
    → P a b
    → P a' b'
returned-pair P {a} {a'} {b} {b'} h p =
    let first : a ≡ a' = ground (arith, h) in
    let second : b ≡ b' = ground (arith, h) in
    subst (λ x. P x b') first (subst (λ y. P a y) second p)

interrupted_unsettled :
    (now : ℕ) (m : PendingMutation) → is_interrupted now m ≡ true → state_unsettled m.state ≡ true
interrupted_unsettled now m h = ground (arith, h)

replayable_unsettled :
    (m : PendingMutation) (now : ℕ)
    → is_replayable_mutation m now ≡ true
    → state_unsettled m.state ≡ true
unfolding is_replayable_mutation state_replayable
replayable_unsettled m now h = ground (arith, h)

started_unsettled :
    {q u : PendingMutation} {now : ℕ}
    → Moves q u (start now)
    → is_permanent_failure u.state ≡ false
    → state_unsettled u.state ≡ true
started_unsettled (Moves.sent _ _ _ _ state) alive = rw state refl
started_unsettled (Moves.exhausted _ _ _ _ state _) alive = absurd (ground (arith, state, alive))

module _ (json_length : PendingMutation → ℕ) where
  -- What a recovered change is.
  recovered :
      (m r : PendingMutation) (now : ℕ)
      → fail_pending_mutation json_length m
          (codes "INTERRUPTED_REPLAY")
          Failure.retryable_failure
          now
        ≡ returns r
      → (state_unsettled r.state ≡ true) × (key_of r ≡ key_of m)
  unfolding act
  recovered m r now h =
      let same =
        act-SameChange json_length (fail (codes "INTERRUPTED_REPLAY") Failure.retryable_failure now)
          m h in
      (
        moved_unsettled (
            act-Moves json_length (fail (codes "INTERRUPTED_REPLAY") Failure.retryable_failure now)
              m h),
        ap (λ (q : QueuedMutation). q.idempotency_key) same.request,
      )

  recover-calm :
      (now : ℕ) (m : PendingMutation) (ms : List PendingMutation) (rows : List Row)
      → is_interrupted now m ≡ false
      → recover json_length now (m ∷ ms) rows
        ≡ (recover json_length now ms rows >>= (λ r. returns (m ∷ r.0, r.1)))
  unfolding recover
  recover-calm now m ms rows calm = rw (recover, calm) refl

  recover-interrupted :
      (now : ℕ) (m : PendingMutation) (ms : List PendingMutation) (rows : List Row)
      → is_interrupted now m ≡ true
      → recover json_length now (m ∷ ms) rows ≡ (
          fail_pending_mutation json_length m
            (codes "INTERRUPTED_REPLAY")
            Failure.retryable_failure
            now
          >>= (λ r.
              recover json_length now ms (write_pending_mutation r rows)
              >>= (λ l. returns (r ∷ l.0, l.1))))
  unfolding recover
  recover-interrupted now m ms rows interrupted = rw (recover, interrupted) refl

  recover-Recovers :
      (now : ℕ) (ms later : List PendingMutation) (rows written : List Row)
      → recover json_length now ms rows ≡ returns (later, written)
      → Recovers ms rows later written
  unfolding recover
  recover-Recovers now [] later rows written h =
      returned-pair (λ l w. Recovers [] rows l w) h nothing_left
  recover-Recovers now (m ∷ ms) later rows written h = elim (Bool-cases (is_interrupted now m)) [
    | inl interrupted ↦
        let step = sym (recover-interrupted now m ms rows interrupted) ∙ h in
        let (r, (failed, h1)) =
          bind-eq-returns
            (fail_pending_mutation json_length m (codes "INTERRUPTED_REPLAY")
              Failure.retryable_failure now)
            _ step in
        let ((l, w), (rest, h2)) =
          bind-eq-returns (recover json_length now ms (write_pending_mutation r rows)) _ h1 in
        let (open_state, key) = recovered m r now failed in
        let pass =
          renewed (interrupted_unsettled now m interrupted) open_state key
            (recover-Recovers now ms l (write_pending_mutation r rows) w rest) in
        returned-pair (λ l' w'. Recovers (m ∷ ms) rows l' w') h2 pass
    | inr calm ↦
        let step = sym (recover-calm now m ms rows calm) ∙ h in
        let ((l, w), (rest, h1)) = bind-eq-returns (recover json_length now ms rows) _ step in
        returned-pair (λ l' w'. Recovers (m ∷ ms) rows l' w') h1
          (stays (recover-Recovers now ms l rows w rest))
  ]

  first_replayable-unsettled :
      (now : ℕ) (ms : List PendingMutation) (rows : List Row) (q : PendingMutation)
      → Covered ms rows
      → first_replayable now ms ≡ some q
      → has_unsettled (key_of q) rows ≡ true
  unfolding first_replayable
  first_replayable-unsettled now [] rows q c h = cc
  first_replayable-unsettled now (m ∷ ms) rows q (c, cs) h =
      elim (Bool-cases (is_replayable_mutation m now)) [
        | inl ready ↦
            let same : m ≡ q = ground (arith, h, ready) in
            subst (λ x. has_unsettled (key_of x) rows ≡ true) same
              (c (replayable_unsettled m now ready))
        | inr waits ↦ first_replayable-unsettled now ms rows q cs (ground (arith, h, waits))
      ]

  -- A change that is started stands in the table as one that may still be sent, and no more such
  -- changes stand there than before.
  start_first-unsettled :
      (now : ℕ) (o : Option PendingMutation) (rows written : List Row) (m : PendingMutation)
      → ((q : PendingMutation) → o ≡ some q → has_unsettled (key_of q) rows ≡ true)
      → start_first json_length now o rows ≡ returns (written, some m)
      → (has_unsettled (key_of m) written ≡ true) × (unsettled_count written ≤ unsettled_count rows)
  unfolding start_first act
  start_first-unsettled now none rows written m c h = absurd (ground (arith, h))
  start_first-unsettled now (some q) rows written m c h =
      let (u, (acted, h1)) = bind-eq-returns (start_pending_mutation json_length q now) _ h in
      let same = act-SameChange json_length (start now) q acted in
      let key : key_of u ≡ key_of q = ap (λ (x : QueuedMutation). x.idempotency_key) same.request in
      let there : has_unsettled (key_of u) rows ≡ true = rw key (c q refl) in
      elim (Bool-cases (is_permanent_failure u.state)) [
        | inl dead ↦ absurd (ground (arith, h1, dead))
        | inr alive ↦
            let sent : u ≡ m = ground (arith, h1, alive) in
            let table : write_pending_mutation u rows ≡ written = ground (arith, h1, alive) in
            let open_state = started_unsettled (act-Moves json_length (start now) q acted) alive in
            let stands = has_unsettled-written u rows open_state in
            let wrote = unsettled_count-write u rows there in
            subst
              (λ x.
                (has_unsettled (key_of x) written ≡ true)
                × (unsettled_count written ≤ unsettled_count rows))
              sent
              (subst
                (λ t.
                  (has_unsettled (key_of u) t ≡ true) × (unsettled_count t ≤ unsettled_count rows))
                table (stands, ground (arith, wrote)))
      ]

  pub next_replayable-unsettled :
      (owner_matches : Bool) (now : ℕ) (rows written : List Row) (m : PendingMutation)
      → next_replayable_mutation json_length owner_matches now rows ≡ returns (written, some m)
      → (has_unsettled (key_of m) written ≡ true) × (unsettled_count written ≤ unsettled_count rows)
  unfolding next_replayable_mutation
  next_replayable-unsettled owner_matches now rows written m h =
      let keys = corrupt_keys json_length rows in
      let readable = delete_keys keys rows in
      let queued = mutations json_length (by_time readable) in
      let (_, h1) = require-eq-returns owner_matches _ _ h in
      let ((ms, table), (r, h2)) = bind-eq-returns (recover json_length now queued readable) _ h1 in
      let pass = recover-Recovers now queued ms readable table r in
      let covered =
        Covered-by_time queued readable (mutations-Covered json_length (by_time readable)) in
      let kept = Recovers-Covered pass covered in
      let fewer = Recovers-count pass covered in
      let (stands, count) =
        start_first-unsettled now (first_replayable now ms) table written m
          (λ q e. first_replayable-unsettled now ms table q kept e) h2 in
      (stands, omega (arith, count, fewer, unsettled_count-delete_keys keys rows))
