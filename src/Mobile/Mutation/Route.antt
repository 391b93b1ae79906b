-- ===== src/Mobile/Mutation/Route.antt =====
-- The patterns of the paths that may be queued (describeMobileMutation, readArticleId in
-- packages/mobile-client/src/offline.ts; assertQueuedMutation in packages/mobile-client/src/api.ts).
-- A pattern of the source matches a whole path, and its groups hold no slash, so it is matched on the
-- parts between the slashes.
use arctic_rss.Prelude.{
  ℕ, Bool, false, Option, none, some, List, [], ◌∷◌, ◌++◌, ◌&&◌, ◌||◌, leb, ◌==◌, if◌then◌else◌,
  length, all, any, is_some, Text, codes, text_eq, split_at, is_lower, is_upper, is_digit,
}

pub data Operation : Type 0 where
  article_state_update collection_item_add collection_item_remove : Operation
  notification_preference_update podcast_progress_update podcast_state_update : Operation

pub data Method : Type 0 where
  delete patch post put : Method

pub record Descriptor : Type 0 where
  pub operation : Operation
  pub resource_id : Text

-- `describeMobileMutation` returns a descriptor or throws one of two errors.
pub data Described : Type 0 where
  described : Descriptor → Described
  missing_article unknown : Described

operation_number : Operation → ℕ
operation_number article_state_update = 0
operation_number collection_item_add = 1
operation_number collection_item_remove = 2
operation_number notification_preference_update = 3
operation_number podcast_progress_update = 4
operation_number podcast_state_update = 5

unfoldable pub operation_eq : Operation → Operation → Bool
unfolding operation_number
operation_eq a b = operation_number a == operation_number b

-- `[A-Za-z0-9_-]`, `[A-Z_]` and `[A-Za-z0-9._:-]`
is_id_char : ℕ → Bool
is_id_char c = is_lower c || (is_upper c || (is_digit c || (c == b'_' || c == b'-')))

is_topic_char : ℕ → Bool
is_topic_char c = is_upper c || c == b'_'

is_key_char : ℕ → Bool
unfolding is_id_char
is_key_char c = is_id_char c || (c == b'.' || c == b':')

some_of : (ℕ → Bool) → Text → Bool
some_of test [] = false
some_of test (c ∷ s) = test c && all test s

is_id : Text → Bool
unfolding some_of is_id_char
is_id = some_of is_id_char

unfoldable pub is_key : Text → Bool
unfolding is_key_char
is_key s = leb 16 (length s) && (leb (length s) 128 && all is_key_char s)

-- What follows `/api/v1/`.
after_api : List Text → List Text
after_api (a ∷ b ∷ c ∷ rest) =
    if text_eq a (codes "") && (text_eq b (codes "api") && text_eq c (codes "v1")) then rest else []
after_api _ = []

match_article : List Text → Option Text
match_article (r ∷ i ∷ s ∷ []) =
    if text_eq r (codes "articles") && (is_id i && text_eq s (codes "state")) then some i else none
match_article _ = none

-- The collection, and the article where the path names one.
match_collection : List Text → Option (Text × Option Text)
match_collection (r ∷ i ∷ s ∷ []) =
    if text_eq r (codes "collections") && (is_id i && text_eq s (codes "items"))
    then some (i, none)
    else none
match_collection (r ∷ i ∷ s ∷ a ∷ []) =
    if text_eq r (codes "collections") && (is_id i && (text_eq s (codes "items") && is_id a))
    then some (i, some a)
    else none
match_collection _ = none

-- The episode, and whether the path ends in `progress`.
match_podcast : List Text → Option (Text × Bool)
match_podcast (r ∷ i ∷ s ∷ []) =
    if text_eq r (codes "podcast-episodes")
      && (is_id i && (text_eq s (codes "progress") || text_eq s (codes "state")))
    then some (i, text_eq s (codes "progress"))
    else none
match_podcast _ = none

match_notification : List Text → Option Text
unfolding some_of is_topic_char
match_notification (r ∷ i ∷ []) =
    if text_eq r (codes "notification-preferences") && some_of is_topic_char i then some i else none
match_notification _ = none

topics : List Text
topics =
    codes "SECURITY_ALERTS"
    ∷ codes "SAVED_MONITOR_MATCHES"
    ∷ codes "SMART_DIGEST_COMPLETION"
    ∷ codes "CHAT_MENTIONS"
    ∷ []

known_topic : Option Text → Bool
unfolding topics
known_topic none = false
known_topic (some t) = any (text_eq t) topics

path_parts : Text → List Text
unfolding after_api
path_parts path = after_api (split_at b'/' path)

unfoldable pub is_queued_path : Text → Bool
unfolding path_parts match_article match_collection match_podcast match_notification known_topic
    is_id
is_queued_path path =
    let parts = path_parts path in
    is_some (match_article parts)
    || (is_some (match_collection parts)
        || (is_some (match_podcast parts) || known_topic (match_notification parts)))

-- `readArticleId`
read_article_id : Option Text → Option Text
read_article_id none = none
read_article_id (some a) = if is_id a then some a else none

or_else : Option Text → Option Text → Option Text
or_else (some a) b = some a
or_else none b = b

describe_collection : Method → Text → Option Text → Described
describe_collection method collection none = missing_article
describe_collection delete collection (some a) =
    described (record { operation = collection_item_remove; resource_id = collection ++ b':' ∷ a })
describe_collection _ collection (some a) =
    described (record { operation = collection_item_add; resource_id = collection ++ b':' ∷ a })

describe_notification : Option Text → Described
describe_notification (some topic) =
    described (record { operation = notification_preference_update; resource_id = topic })
describe_notification none = unknown

describe_podcast : Option (Text × Bool) → Described → Described
describe_podcast (some (episode, progress)) other = described (record {
  operation = if progress then podcast_progress_update else podcast_state_update;
  resource_id = episode;
})
describe_podcast none other = other

describe_item : Method → Option Text → Option (Text × Option Text) → Described → Described
unfolding or_else read_article_id describe_collection is_id
describe_item method article none other = other
describe_item method article (some (collection, named)) other =
    describe_collection method collection (or_else named (read_article_id article))

describe_article : Option Text → Described → Described
describe_article (some article) other =
    described (record { operation = article_state_update; resource_id = article })
describe_article none other = other

unfoldable pub describe_path : Method → Option Text → Text → Described
unfolding path_parts match_article match_collection match_podcast match_notification
    describe_article describe_item describe_podcast describe_notification is_id
describe_path method article path =
    let parts = path_parts path in
    describe_article (match_article parts) (
      describe_item method article (match_collection parts)
        (describe_podcast (match_podcast parts) (describe_notification (match_notification parts))))
