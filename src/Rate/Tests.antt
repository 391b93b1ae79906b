-- ===== src/Rate/Tests.antt =====
-- Calls of one reader.
use arctic_rss.Prelude.{
  ℕ, ◌-◌, ◌≤◌, ◌≡◌, refl, if◌then◌else◌, none, some, [], ◌∷◌, Text, codes, text_eq, trim,
  trim_start, trim_end, is_space, arith,
}
use arctic_rss.Rate.Rules.{Action, Field, Subject, Rule, rate_limit_rules, action_name}
use arctic_rss.Rate.{
  RateLimitInput, RateLimitResult, Attempt, answered, enforce_rate_limit, applicable_rules,
  subject_of, normalize_identifier, make_rate_limit_key,
}
use arctic_rss.Rate.Store.{Table, table_commands, table-IsRedis}
use arctic_rss.Rate.Window.{rules_of, allowed_calls, allowed_calls-bounded}
use arctic_rss.Rate.Room.{IsDistinct, enforce_rate_limit-allowed}

abbrev same : Text → Text
same s = s

abbrev input : RateLimitInput
input = record {
  account = none;
  action = Action.account_export;
  ip = some (codes "::1");
  room_id = none;
  token = none;
  user_id = some (codes "ann");
}

abbrev call : ℕ → Attempt
call now = record { input = input; now = now; fates = λ i. answered }

abbrev nothing : Table
nothing = λ k. none

abbrev user_key : Text
user_key = codes "arctic-rss:rate-limit:v1:account_export:user:ann"

abbrev ip_key : Text
ip_key = codes "arctic-rss:rate-limit:v1:account_export:ip:::1"

abbrev user_rule : Rule
user_rule = record {
  limit = 3;
  scope = codes "user";
  subject = Subject.one Field.user_id;
  window_ms = 3600000;
}

abbrev ip_rule : Rule
ip_rule = record {
  limit = 20;
  scope = codes "ip";
  subject = Subject.one Field.ip;
  window_ms = 3600000;
}

abbrev begun : Table
begun =
    λ k. if text_eq k user_key then some (record { count = 1; deadline = some 3601000 }) else none

ruled : rules_of same same (call 1000) ≡ (user_rule, user_key) ∷ (ip_rule, ip_key) ∷ []
unfolding applicable_rules rate_limit_rules subject_of normalize_identifier make_rate_limit_key
    action_name trim trim_start trim_end is_space
ruled = refl

begun_entry :
    table_commands.entry 1000 user_key begun ≡ some (record { count = 1; deadline = some 3601000 })
unfolding text_eq
begun_entry = refl

keys_distinct : IsDistinct ((user_rule, user_key) ∷ (ip_rule, ip_key) ∷ [])
unfolding text_eq
keys_distinct = ((refl, tt), (tt, tt))

allowed_calls-bounded_example :
    allowed_calls same same Table table_commands 3 user_key
      (call 2000 ∷ call 3000 ∷ call 3000 ∷ [])
      begun
    ≤ 3 - 1
allowed_calls-bounded_example =
    allowed_calls-bounded Table table_commands table-IsRedis same same
      (call 2000 ∷ call 3000 ∷ call 3000 ∷ []) user_key 1000 1 3601000 3 begun (omega arith)
      begun_entry
      (omega arith, (omega arith, (omega arith, (omega arith, (omega arith, (omega arith, tt))))))

enforce_rate_limit-allowed_example :
    (enforce_rate_limit same same Table table_commands (call 1000) nothing).1
    ≡ RateLimitResult.allowed
enforce_rate_limit-allowed_example =
    enforce_rate_limit-allowed Table table_commands table-IsRedis same same (call 1000) nothing
      (user_rule, user_key) ((ip_rule, ip_key) ∷ []) ruled (λ j. refl) keys_distinct
      (omega arith, (omega arith, tt))
