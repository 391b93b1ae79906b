-- ===== src/Rate/Rules.antt =====
-- The actions that are limited, and their rules (rateLimitRules in src/lib/rate-limit.ts).
use Prim.Native.String.{String}
use arctic_rss.Prelude.{ℕ, ◌*◌, List, [], ◌∷◌, Text, codes}

pub data Action : Type 0 where
  account_export account_deletion_confirmation account_deletion_handoff : Action
  account_deletion_confirmation_request account_deletion_reauthentication admin_opml_import : Action
  ai_digest ai_summary story_cluster_analysis chat_authorization_failure chat_connection : Action
  chat_message chat_malformed_event chat_moderation chat_read_marker chat_report : Action
  chat_room_subscribe chat_room_unsubscribe chat_session_token csp_report csp_report_log : Action
  feed_discovery feedback image_proxy login mobile_device_authorization : Action
  mobile_device_authorization_approval mobile_device_authorization_approval_prebody : Action
  mobile_api_read mobile_api_write mobile_token_exchange mobile_token_exchange_prebody : Action
  mobile_token_refresh mobile_token_refresh_prebody opml_import podcast_transcript : Action
  password_reset_complete password_reset_request public_health signup story_cluster_control : Action
  story_cluster_evaluation verification_resend : Action

pub data Field : Type 0 where
  account ip room_id token user_id : Field

-- `inputSubject`, `combinedSubject`, and a subject that does not look at the input.
pub data Subject : Type 0 where
  one : Field → Subject
  combined : List Field → Subject
  fixed : Text → Subject

pub record Rule : Type 0 where
  pub limit : ℕ
  pub scope : Text
  pub subject : Subject
  pub window_ms : ℕ

abbrev minute : ℕ
minute = 60000

abbrev rule : ℕ → String → Subject → ℕ → Rule
rule limit scope subject window = record {
  limit = limit;
  scope = codes scope;
  subject = subject;
  window_ms = window;
}

unfoldable pub rate_limit_rules : Action → List Rule
rate_limit_rules Action.account_export =
    rule 3 "user" (one Field.user_id) (60 * minute) ∷ rule 20 "ip" (one Field.ip) (60 * minute) ∷ []
rate_limit_rules Action.account_deletion_confirmation =
    rule 5 "user" (one Field.user_id) (15 * minute)
    ∷ rule 5 "user-ip" (combined (Field.user_id ∷ Field.ip ∷ [])) (15 * minute)
    ∷ []
rate_limit_rules Action.account_deletion_confirmation_request =
    rule 3 "user" (one Field.user_id) (60 * minute)
    ∷ rule 3 "user-ip" (combined (Field.user_id ∷ Field.ip ∷ [])) (60 * minute)
    ∷ []
rate_limit_rules Action.account_deletion_reauthentication =
    rule 5 "user" (one Field.user_id) (15 * minute)
    ∷ rule 5 "user-ip" (combined (Field.user_id ∷ Field.ip ∷ [])) (15 * minute)
    ∷ []
rate_limit_rules Action.admin_opml_import = rule 3 "user" (one Field.user_id) (60 * minute) ∷ []
rate_limit_rules Action.ai_digest = rule 6 "user" (one Field.user_id) (60 * minute) ∷ []
rate_limit_rules Action.ai_summary = rule 30 "user" (one Field.user_id) (60 * minute) ∷ []
rate_limit_rules Action.story_cluster_analysis =
    rule 6 "user" (one Field.user_id) (60 * minute) ∷ []
rate_limit_rules Action.chat_authorization_failure = rule 12 "ip" (one Field.ip) (5 * minute) ∷ []
rate_limit_rules Action.chat_connection = rule 30 "ip" (one Field.ip) (minute) ∷ []
rate_limit_rules Action.chat_message =
    rule 30 "user" (one Field.user_id) (minute)
    ∷ rule 12 "user-room" (combined (Field.user_id ∷ Field.room_id ∷ [])) (minute)
    ∷ []
rate_limit_rules Action.chat_malformed_event =
    rule 10 "user" (one Field.user_id) (minute) ∷ rule 30 "ip" (one Field.ip) (minute) ∷ []
rate_limit_rules Action.chat_moderation = rule 30 "user" (one Field.user_id) (minute) ∷ []
rate_limit_rules Action.chat_read_marker =
    rule 60 "user" (one Field.user_id) (minute)
    ∷ rule 30 "user-room" (combined (Field.user_id ∷ Field.room_id ∷ [])) (minute)
    ∷ []
rate_limit_rules Action.chat_report = rule 6 "user" (one Field.user_id) (60 * minute) ∷ []
rate_limit_rules Action.chat_room_subscribe =
    rule 30 "user" (one Field.user_id) (minute)
    ∷ rule 10 "user-room" (combined (Field.user_id ∷ Field.room_id ∷ [])) (minute)
    ∷ []
rate_limit_rules Action.chat_room_unsubscribe = rule 30 "user" (one Field.user_id) (minute) ∷ []
rate_limit_rules Action.chat_session_token =
    rule 20 "user" (one Field.user_id) (5 * minute) ∷ rule 60 "ip" (one Field.ip) (5 * minute) ∷ []
rate_limit_rules Action.csp_report = rule 30 "ip" (one Field.ip) (minute) ∷ []
rate_limit_rules Action.csp_report_log = rule 60 "global" (fixed (codes "csp-report")) (minute) ∷ []
rate_limit_rules Action.feed_discovery = rule 20 "user" (one Field.user_id) (60 * minute) ∷ []
rate_limit_rules Action.feedback = rule 8 "user" (one Field.user_id) (24 * (60 * minute)) ∷ []
rate_limit_rules Action.image_proxy = rule 120 "ip" (one Field.ip) (5 * minute) ∷ []
rate_limit_rules Action.account_deletion_handoff =
    rule 10 "ip" (one Field.ip) (15 * minute) ∷ rule 5 "token" (one Field.token) (15 * minute) ∷ []
rate_limit_rules Action.public_health = rule 600 "ip" (one Field.ip) (minute) ∷ []
rate_limit_rules Action.login =
    rule 25 "ip" (one Field.ip) (15 * minute)
    ∷ rule 12 "account" (one Field.account) (15 * minute)
    ∷ rule 6 "account-ip" (combined (Field.account ∷ Field.ip ∷ [])) (15 * minute)
    ∷ []
rate_limit_rules Action.mobile_api_read =
    rule 600 "user" (one Field.user_id) (minute) ∷ rule 900 "ip" (one Field.ip) (minute) ∷ []
rate_limit_rules Action.mobile_api_write =
    rule 120 "user" (one Field.user_id) (minute) ∷ rule 240 "ip" (one Field.ip) (minute) ∷ []
rate_limit_rules Action.mobile_device_authorization =
    rule 20 "user" (one Field.user_id) (60 * minute)
    ∷ rule 60 "ip" (one Field.ip) (60 * minute)
    ∷ []
rate_limit_rules Action.mobile_device_authorization_approval =
    rule 20 "user" (one Field.user_id) (60 * minute)
    ∷ rule 60 "ip" (one Field.ip) (60 * minute)
    ∷ []
rate_limit_rules Action.mobile_device_authorization_approval_prebody =
    rule 60 "ip" (one Field.ip) (15 * minute) ∷ []
rate_limit_rules Action.mobile_token_exchange = rule 10 "token" (one Field.token) (15 * minute) ∷ []
rate_limit_rules Action.mobile_token_exchange_prebody =
    rule 60 "ip" (one Field.ip) (15 * minute) ∷ []
rate_limit_rules Action.mobile_token_refresh = rule 10 "token" (one Field.token) (15 * minute) ∷ []
rate_limit_rules Action.mobile_token_refresh_prebody =
    rule 120 "ip" (one Field.ip) (15 * minute) ∷ []
rate_limit_rules Action.opml_import = rule 6 "user" (one Field.user_id) (60 * minute) ∷ []
rate_limit_rules Action.podcast_transcript =
    rule 12 "user" (one Field.user_id) (5 * minute) ∷ rule 30 "ip" (one Field.ip) (5 * minute) ∷ []
rate_limit_rules Action.password_reset_complete =
    rule 12 "ip" (one Field.ip) (60 * minute) ∷ rule 4 "token" (one Field.token) (60 * minute) ∷ []
rate_limit_rules Action.password_reset_request =
    rule 10 "ip" (one Field.ip) (60 * minute)
    ∷ rule 4 "account" (one Field.account) (60 * minute)
    ∷ rule 3 "account-ip" (combined (Field.account ∷ Field.ip ∷ [])) (60 * minute)
    ∷ []
rate_limit_rules Action.signup =
    rule 6 "ip" (one Field.ip) (60 * minute)
    ∷ rule 3 "account" (one Field.account) (60 * minute)
    ∷ rule 3 "account-ip" (combined (Field.account ∷ Field.ip ∷ [])) (60 * minute)
    ∷ []
rate_limit_rules Action.story_cluster_evaluation =
    rule 30 "user" (one Field.user_id) (60 * minute) ∷ []
rate_limit_rules Action.story_cluster_control =
    rule 30 "user" (one Field.user_id) (60 * minute) ∷ []
rate_limit_rules Action.verification_resend = rule 3 "user" (one Field.user_id) (60 * minute) ∷ []

-- The name of an action, as it stands in a key.
unfoldable pub action_name : Action → Text
action_name Action.account_export = codes "account_export"
action_name Action.account_deletion_confirmation = codes "account_deletion_confirmation"
action_name Action.account_deletion_handoff = codes "account_deletion_handoff"
action_name Action.account_deletion_confirmation_request =
    codes "account_deletion_confirmation_request"
action_name Action.account_deletion_reauthentication = codes "account_deletion_reauthentication"
action_name Action.admin_opml_import = codes "admin_opml_import"
action_name Action.ai_digest = codes "ai_digest"
action_name Action.ai_summary = codes "ai_summary"
action_name Action.story_cluster_analysis = codes "story_cluster_analysis"
action_name Action.chat_authorization_failure = codes "chat_authorization_failure"
action_name Action.chat_connection = codes "chat_connection"
action_name Action.chat_message = codes "chat_message"
action_name Action.chat_malformed_event = codes "chat_malformed_event"
action_name Action.chat_moderation = codes "chat_moderation"
action_name Action.chat_read_marker = codes "chat_read_marker"
action_name Action.chat_report = codes "chat_report"
action_name Action.chat_room_subscribe = codes "chat_room_subscribe"
action_name Action.chat_room_unsubscribe = codes "chat_room_unsubscribe"
action_name Action.chat_session_token = codes "chat_session_token"
action_name Action.csp_report = codes "csp_report"
action_name Action.csp_report_log = codes "csp_report_log"
action_name Action.feed_discovery = codes "feed_discovery"
action_name Action.feedback = codes "feedback"
action_name Action.image_proxy = codes "image_proxy"
action_name Action.login = codes "login"
action_name Action.mobile_device_authorization = codes "mobile_device_authorization"
action_name Action.mobile_device_authorization_approval =
    codes "mobile_device_authorization_approval"
action_name Action.mobile_device_authorization_approval_prebody =
    codes "mobile_device_authorization_approval_prebody"
action_name Action.mobile_api_read = codes "mobile_api_read"
action_name Action.mobile_api_write = codes "mobile_api_write"
action_name Action.mobile_token_exchange = codes "mobile_token_exchange"
action_name Action.mobile_token_exchange_prebody = codes "mobile_token_exchange_prebody"
action_name Action.mobile_token_refresh = codes "mobile_token_refresh"
action_name Action.mobile_token_refresh_prebody = codes "mobile_token_refresh_prebody"
action_name Action.opml_import = codes "opml_import"
action_name Action.podcast_transcript = codes "podcast_transcript"
action_name Action.password_reset_complete = codes "password_reset_complete"
action_name Action.password_reset_request = codes "password_reset_request"
action_name Action.public_health = codes "public_health"
action_name Action.signup = codes "signup"
action_name Action.story_cluster_control = codes "story_cluster_control"
action_name Action.story_cluster_evaluation = codes "story_cluster_evaluation"
action_name Action.verification_resend = codes "verification_resend"
