-- ===== src/Mobile/Mutation.antt =====
-- A queued change and what makes it acceptable (packages/mobile-client/src/offline.ts, and
-- assertQueuedMutation in packages/mobile-client/src/api.ts). Numbers of the source that are always
-- times or counts are natural numbers, so its tests for finite or whole numbers hold by themselves.
pub mod Route
use arctic_rss.Prelude.{
  ℕ, String, Bool, true, false, Option, none, some, List, [], ◌∷◌, ◌++◌, ◌&&◌, ◌||◌, not, ltb, leb,
  ◌==◌, if◌then◌else◌, length, Text, codes, text_eq,
}
use arctic_rss.Mobile.Mutation.Route.{
  Operation, Method, Descriptor, describe_path, is_queued_path, is_key, operation_eq,
}

-- The messages of the errors that are thrown.
pub data Error : Type 0 where
  unbounded_key out_of_scope no_article no_creation_time bad_update_time unbounded_attempts : Error
  ownership_changed already_queued queue_full unavailable foreign : Error
  bad_ownership bad_retry_metadata bad_operation too_large not_ready unbounded_code not_terminal :
      Error

pub data Attempt {ℓ} (A : Type ℓ) : Type ℓ where
  returns : A → Attempt A
  throws : Error → Attempt A

module _ {ℓ κ} {A : Type ℓ} {B : Type κ} where
  infixl 5 ◌>>=◌
  abbrev pub ◌>>=◌ : Attempt A → (A → Attempt B) → Attempt B
  attempt >>= next = elim attempt [ throws e ↦ throws e | returns a ↦ next a ]

-- `if (!test) throw error`.
abbrev pub require : Bool → Error → Attempt (Unit {0})
require test e = if test then returns tt else throws e

module _ {κ} {B : Type κ} where
  infixl 5 ◌>>◌
  abbrev pub ◌>>◌ : Attempt (Unit {0}) → Attempt B → Attempt B
  first >> next = first >>= (λ done. next)

-- A body: the `articleId` in it, if that is a string, and the length of its JSON text.
pub record Body : Type 0 where
  pub article_id : Option Text
  pub json_length : ℕ

pub data MutationState : Type 0 where
  pending sending retryable_failure conflict permanent_failure completed : MutationState

pub record QueuedMutation : Type 0 where
  pub body : Option Body
  pub idempotency_key : Text
  pub method : Method
  pub path : Text
  pub created_at : ℕ
  pub expected_version : Option Text

pub record MutationOwner : Type 0 where
  pub mobile_device_id : Text
  pub user_id : Text

pub record PendingMutation : Type 0 where
  pub request : QueuedMutation
  pub attempt_count : ℕ
  pub id : Text
  pub last_attempt_at : Option ℕ
  pub last_error_code : Option Text
  pub mobile_device_id : Text
  pub next_attempt_at : Option ℕ
  pub operation : Operation
  pub owner_user_id : Text
  pub resource_id : Text
  pub state : MutationState
  pub updated_at : ℕ

abbrev pub max_mutation_attempts : ℕ
max_mutation_attempts = 10

abbrev pub max_error_code_length : ℕ
max_error_code_length = 80

abbrev pub max_version_length : ℕ
max_version_length = 256

abbrev article_of : Option Body → Option Text
article_of none = none
article_of (some b) = b.article_id

-- `JSON.stringify(request.body ?? {}).length`
abbrev body_length : Option Body → ℕ
body_length none = 2
body_length (some b) = b.json_length

unfoldable pub assert_queued_mutation : QueuedMutation → Attempt (Unit {0})
assert_queued_mutation q = do
  require (is_key q.idempotency_key) unbounded_key
  require (is_queued_path q.path && leb (body_length q.body) 8192) out_of_scope

unfoldable pub describe_mutation : QueuedMutation → Attempt Descriptor
describe_mutation q = elim (describe_path q.method (article_of q.body) q.path) [
  | Route.described d ↦ returns d
  | Route.missing_article ↦ throws no_article
  | Route.unknown ↦ throws out_of_scope
]

abbrev pub mutation_id : Text → Text
mutation_id key = codes "mutation:" ++ key

abbrev pub is_empty : Text → Bool
is_empty [] = true
is_empty _ = false

abbrev pub fits : ℕ → Option Text → Bool
fits most none = true
fits most (some t) = leb (length t) most

abbrev pub code_ok : Option Text → Bool
code_ok none = true
code_ok (some t) = not (is_empty t) && leb (length t) max_error_code_length

unfoldable pub same_descriptor : Descriptor → PendingMutation → Bool
same_descriptor d m = operation_eq d.operation m.operation && text_eq d.resource_id m.resource_id

-- The length of the JSON text of a mutation is an argument.
module _ (json_length : PendingMutation → ℕ) where
  unfoldable pub assert_pending_mutation : PendingMutation → Attempt (Unit {0})
  assert_pending_mutation m = do
    assert_queued_mutation m.request
    require (ltb 0 m.request.created_at) no_creation_time
    require (leb m.request.created_at m.updated_at) bad_update_time
    require (leb m.attempt_count max_mutation_attempts) unbounded_attempts
    require
        (not (is_empty m.id)
          && (not (is_empty m.owner_user_id)
              && (not (is_empty m.mobile_device_id)
                  && (leb (length m.resource_id) 256
                      && text_eq m.id (mutation_id m.request.idempotency_key)))))
        bad_ownership
    require (code_ok m.last_error_code && fits max_version_length m.request.expected_version)
        bad_retry_metadata
    d ← describe_mutation m.request
    require (same_descriptor d m) bad_operation
    require (leb (json_length m) 10000) too_large

  unfoldable pub create_pending_mutation : QueuedMutation → MutationOwner → Attempt PendingMutation
  create_pending_mutation q owner = do
    assert_queued_mutation q
    d ← describe_mutation q
    let m : PendingMutation = record {
      request = q;
      attempt_count = 0;
      id = mutation_id q.idempotency_key;
      last_attempt_at = none;
      last_error_code = none;
      mobile_device_id = owner.mobile_device_id;
      next_attempt_at = none;
      operation = d.operation;
      owner_user_id = owner.user_id;
      resource_id = d.resource_id;
      state = pending;
      updated_at = q.created_at;
    }
    assert_pending_mutation m
    returns m
