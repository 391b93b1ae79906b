-- ===== src/Mobile/Replay/Validity.antt =====
-- What the assertion on a queued change asks, and which changes keep it.
use arctic_rss.Prelude.{
  ℕ, ◌≤◌, ◌≡◌, refl, Bool, true, ◌&&◌, not, ltb, leb, length, text_eq, arith, le→leb,
}
use arctic_rss.Mobile.Mutation.{
  PendingMutation, Error, Attempt, returns, throws, ◌>>=◌, ◌>>◌, require, assert_pending_mutation,
  max_mutation_attempts, max_version_length, is_empty, code_ok, assert_queued_mutation,
  same_descriptor, describe_mutation, fits, mutation_id,
}
use arctic_rss.Mobile.Mutation.Route.{Descriptor}

-- What a call that returns says of its parts.
module _ {ℓ κ} {A : Type ℓ} {B : Type κ} {b : B} where
  pub bind-eq-returns :
      (attempt : Attempt A) (next : A → Attempt B)
      → (attempt >>= next) ≡ returns b
      → (a : A) × ((attempt ≡ returns a) × (next a ≡ returns b))
  bind-eq-returns (throws e) next h = cc
  bind-eq-returns (returns a) next h = (a, (refl, h))

module _ {κ} {B : Type κ} {b : B} where
  pub require-eq-returns :
      (test : Bool) (e : Error) (next : Attempt B)
      → (require test e >> next) ≡ returns b
      → (test ≡ true) × (next ≡ returns b)
  require-eq-returns test e next h = ground arith

pub and_left : (a b : Bool) → (a && b) ≡ true → a ≡ true
and_left a b h = ground arith

and_right : (a b : Bool) → (a && b) ≡ true → b ≡ true
and_right a b h = ground arith

module _ (json_length : PendingMutation → ℕ) where
  abbrev pub IsAcceptable : PendingMutation → Type 0
  IsAcceptable m = assert_pending_mutation json_length m ≡ returns tt

  -- What the assertion asks, part by part.
  pub record Parts (m : PendingMutation) : Type 0 where
    pub queued : assert_queued_mutation m.request ≡ returns tt
    pub created : ltb 0 m.request.created_at ≡ true
    pub updated : leb m.request.created_at m.updated_at ≡ true
    pub attempts : leb m.attempt_count max_mutation_attempts ≡ true
    pub owned :
        (not (is_empty m.id)
          && (not (is_empty m.owner_user_id)
              && (not (is_empty m.mobile_device_id)
                  && (leb (length m.resource_id) 256
                      && text_eq m.id (mutation_id m.request.idempotency_key)))))
        ≡ true
    pub retried :
        (code_ok m.last_error_code && fits max_version_length m.request.expected_version) ≡ true
    pub descriptor : Descriptor
    pub describes : describe_mutation m.request ≡ returns descriptor
    pub same : same_descriptor descriptor m ≡ true
    pub small : leb (json_length m) 10000 ≡ true

  pub IsAcceptable-Parts : (m : PendingMutation) → IsAcceptable m → Parts m
  unfolding assert_pending_mutation
  IsAcceptable-Parts m h =
      let (_, (queued, h1)) = bind-eq-returns (assert_queued_mutation m.request) _ h in
      let (created, h2) = require-eq-returns _ _ _ h1 in
      let (updated, h3) = require-eq-returns _ _ _ h2 in
      let (attempts, h4) = require-eq-returns _ _ _ h3 in
      let (owned, h5) = require-eq-returns _ _ _ h4 in
      let (retried, h6) = require-eq-returns _ _ _ h5 in
      let (d, (describes, h7)) = bind-eq-returns (describe_mutation m.request) _ h6 in
      let (same, h8) = require-eq-returns _ _ _ h7 in
      record {
        queued = queued;
        created = created;
        updated = updated;
        attempts = attempts;
        owned = owned;
        retried = retried;
        descriptor = d;
        describes = describes;
        same = same;
        small = ground arith;
      }

  Parts-IsAcceptable : (m : PendingMutation) → Parts m → IsAcceptable m
  unfolding assert_pending_mutation
  Parts-IsAcceptable m p =
      rw (
        p.queued, p.created, p.updated, p.attempts, p.owned, p.retried, p.describes, p.same,
        p.small,
      )

  -- A change of the counter, the times, the error code and the state leaves a mutation acceptable, as
  -- long as the new values are within bounds.
  pub change-IsAcceptable :
      (m m' : PendingMutation)
      → IsAcceptable m
      → m'.request ≡ m.request
      → m'.id ≡ m.id
      → m'.owner_user_id ≡ m.owner_user_id
      → m'.mobile_device_id ≡ m.mobile_device_id
      → m'.resource_id ≡ m.resource_id
      → m'.operation ≡ m.operation
      → m'.attempt_count ≤ max_mutation_attempts
      → m.request.created_at ≤ m'.updated_at
      → code_ok m'.last_error_code ≡ true
      → json_length m' ≤ 10000
      → IsAcceptable m'
  unfolding same_descriptor
  change-IsAcceptable m m' h request id owner device resource operation attempts updated code
        small =
      let p = IsAcceptable-Parts m h in
      Parts-IsAcceptable m' (record {
        queued = rw request p.queued;
        created = rw request p.created;
        updated = rw request (le→leb _ _ updated);
        attempts = le→leb _ _ attempts;
        owned = rw (request, id, owner, device, resource) p.owned;
        retried = rw (code, request) (and_right _ _ p.retried);
        descriptor = p.descriptor;
        describes = rw request p.describes;
        same = rw (operation, resource) p.same;
        small = le→leb _ _ small;
      })
