-- ===== src/Rate.antt =====
-- The rate limiter (src/lib/rate-limit.ts). Redis is the argument `redis`: its commands INCR, PEXPIRE
-- and PTTL at a time, with what a key holds then. The hash and `toLowerCase` are arguments.
pub mod Rules
pub mod Store
pub mod Window
pub mod Room
mod Tests
use arctic_rss.Prelude.{
  ℕ, zero, suc, ◌+◌, ◌-◌, ◌*◌, ◌/◌, max, ◌≤◌, ◌<◌, ◌≡◌, Bool, true, false, Option, none, some, List,
  [], ◌∷◌, ◌++◌, ◌&&◌, ◌||◌, not, if◌then◌else◌, ltb, ◌==◌, Text, codes, text_eq, trim,
}
use arctic_rss.Rate.Rules.{
  Action, Field, Subject, one, combined, fixed, Rule, rate_limit_rules, action_name,
}

pub record RateLimitInput : Type 0 where
  pub account : Option Text
  pub action : Action
  pub ip : Option Text
  pub room_id : Option Text
  pub token : Option Text
  pub user_id : Option Text

pub data RateLimitResult : Type 0 where
  allowed identifier_unavailable unavailable : RateLimitResult
  limited : ℕ → Text → RateLimitResult

-- What a key holds: a count, and when it expires, if ever.
pub record Counter : Type 0 where
  pub count : ℕ
  pub deadline : Option ℕ

abbrev pub count_of : Option Counter → ℕ
count_of none = 0
count_of (some c) = c.count

-- The commands of the script, at a time.
pub record Commands (State : Type 0) : Type 0 where
  pub entry : ℕ → Text → State → Option Counter
  pub incr : ℕ → Text → State → State × ℕ
  pub pexpire : ℕ → Text → ℕ → State → State
  pub pttl : ℕ → Text → State → ℕ

-- What becomes of an evaluation of the script: it throws without having run, or although it has run.
pub data Fate : Type 0 where
  answered not_run unanswered : Fate

-- A call: its input, its time, and the fates of its evaluations.
pub record Attempt : Type 0 where
  pub input : RateLimitInput
  pub now : ℕ
  pub fates : ℕ → Fate

abbrev field_of : Field → RateLimitInput → Option Text
field_of Field.account input = input.account
field_of Field.ip input = input.ip
field_of Field.room_id input = input.room_id
field_of Field.token input = input.token
field_of Field.user_id input = input.user_id

abbrev non_empty : Text → Option Text
non_empty [] = none
non_empty (c ∷ s) = some (c ∷ s)

-- The texts joined by colons, if all are there.
unfoldable join_all : List (Option Text) → Option Text
join_all [] = some []
join_all (none ∷ values) = none
join_all (some v ∷ []) = some v
join_all (some v ∷ w ∷ values) = elim (join_all (w ∷ values)) [
  | none ↦ none
  | some rest ↦ some (v ++ b':' ∷ rest)
]

-- `Math.max(1, Math.ceil(ttlMs / 1_000))`
abbrev retry_after : ℕ → ℕ
retry_after ttl = max 1 ((ttl + 999) / 1000)

module _ (State : Type 0) (redis : Commands State) where
  -- The script: the count, and the time to live.
  unfoldable pub increment_with_expiry : ℕ → Text → ℕ → State → State × (ℕ × ℕ)
  increment_with_expiry now key window s =
      let (counted, current) = redis.incr now key s in
      let end = if current == 1 then redis.pexpire now key window counted else counted in
      (end, (current, redis.pttl now key end))

  -- The loop over the rules, the first of them the i-th.
  unfoldable pub enforce_rules :
      ℕ → (ℕ → Fate) → ℕ → List (Rule × Text) → State → State × RateLimitResult
  unfolding increment_with_expiry
  enforce_rules now fates i [] s = (s, allowed)
  enforce_rules now fates i ((rule, key) ∷ rules) s =
      let (end, (count, ttl)) = increment_with_expiry now key rule.window_ms s in
      let later = enforce_rules now fates (i + 1) rules end in
      elim (fates i) [
        | not_run ↦ (s, unavailable)
        | unanswered ↦ (end, unavailable)
        | answered ↦
            if ltb rule.limit count then (end, limited (retry_after ttl) rule.scope) else later
      ]

module _ (to_lower_case hash_identifier : Text → Text) where
  unfoldable pub normalize_identifier : Option Text → Option Text
  normalize_identifier none = none
  normalize_identifier (some value) = non_empty (to_lower_case (trim value))

  unfoldable normalize_fields : RateLimitInput → List Field → List (Option Text)
  unfolding normalize_identifier
  normalize_fields input [] = []
  normalize_fields input (name ∷ names) =
      normalize_identifier (field_of name input) ∷ normalize_fields input names

  unfoldable pub subject_of : Subject → RateLimitInput → Option Text
  unfolding normalize_identifier normalize_fields join_all
  subject_of (one name) input = normalize_identifier (field_of name input)
  subject_of (combined names) input = join_all (normalize_fields input names)
  subject_of (fixed text) input = some text

  unfoldable pub make_rate_limit_key : Action → Text → Text → Text
  unfolding action_name
  make_rate_limit_key action scope subject =
      codes "arctic-rss:rate-limit:v1:"
      ++ (action_name action ++ b':' ∷ (scope ++ b':' ∷ hash_identifier subject))

  -- The rules that have a subject, with the key of each.
  unfoldable pub applicable_rules : RateLimitInput → List Rule → List (Rule × Text)
  unfolding subject_of make_rate_limit_key
  applicable_rules input [] = []
  applicable_rules input (rule ∷ rules) =
      let rest = applicable_rules input rules in
      elim (subject_of rule.subject input) [
        | none ↦ rest
        | some [] ↦ rest
        | some (c ∷ s) ↦ (rule, make_rate_limit_key input.action rule.scope (c ∷ s)) ∷ rest
      ]

  module _ (State : Type 0) (redis : Commands State) where
    unfoldable pub enforce_rate_limit : Attempt → State → State × RateLimitResult
    unfolding applicable_rules enforce_rules
    enforce_rate_limit attempt s =
        elim (applicable_rules attempt.input (rate_limit_rules attempt.input.action)) [
          | [] ↦ (s, identifier_unavailable)
          | r ∷ rs ↦ enforce_rules State redis attempt.now attempt.fates 0 (r ∷ rs) s
        ]
