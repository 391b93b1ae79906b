-- ===== src/Chat/Permissions.antt =====
-- Who may perform a chat action (src/lib/chat/permissions.ts). A field that may be missing is an
-- option.
pub mod Roles
mod Tests
use arctic_rss.Prelude.{Bool, true, false, Option, none, some, ◌&&◌, not, if◌then◌else◌}

pub data MemberRole : Type 0 where
  owner admin operator voice member : MemberRole

pub data RoomState : Type 0 where
  active read_only archived suspended : RoomState

pub data MemberStatus : Type 0 where
  active left pending : MemberStatus

pub data GlobalRole : Type 0 where
  user admin : GlobalRole

pub data ChatAction : Type 0 where
  view_public_directory view_public_room join_open_room read_member_history post_message :
      ChatAction
  update_topic set_room_mode invite_member manage_room kick_member ban_member mute_member :
      ChatAction
  remove_message view_moderation_queue manage_reports : ChatAction

pub record PermissionContext : Type 0 where
  pub account_disabled : Option Bool
  pub chat_enabled : Bool
  pub email_verified : Bool
  pub global_role : GlobalRole
  pub room_member_status : Option MemberStatus
  pub room_role : Option MemberRole
  pub room_state : Option RoomState

abbrev is_global_admin : GlobalRole → Bool
is_global_admin GlobalRole.admin = true
is_global_admin GlobalRole.user = false

abbrev pub is_suspended : Option RoomState → Bool
is_suspended (some RoomState.suspended) = true
is_suspended _ = false

abbrev pub is_room_active : Option RoomState → Bool
is_room_active (some RoomState.active) = true
is_room_active _ = false

-- `accountDisabled !== true`
abbrev is_enabled : Option Bool → Bool
is_enabled (some true) = false
is_enabled _ = true

abbrev pub moderator_role : Option MemberRole → Bool
moderator_role (some owner) = true
moderator_role (some MemberRole.admin) = true
moderator_role (some operator) = true
moderator_role _ = false

abbrev pub manager_role : Option MemberRole → Bool
manager_role (some owner) = true
manager_role (some MemberRole.admin) = true
manager_role _ = false

abbrev pub active_member : Option MemberStatus → Option MemberRole → Bool
active_member (some MemberStatus.active) (some role) = true
active_member _ _ = false

unfoldable pub is_chat_eligible : PermissionContext → Bool
is_chat_eligible c = c.chat_enabled && (c.email_verified && is_enabled c.account_disabled)

has_active_membership : PermissionContext → Bool
has_active_membership c = active_member c.room_member_status c.room_role

is_room_moderator : PermissionContext → Bool
is_room_moderator c = moderator_role c.room_role

is_room_manager : PermissionContext → Bool
is_room_manager c = manager_role c.room_role

-- The switch on the action.
unfoldable pub action_allowed : ChatAction → PermissionContext → Bool
unfolding has_active_membership is_room_moderator is_room_manager
action_allowed view_public_directory c = true
action_allowed view_public_room c = true
action_allowed join_open_room c = true
action_allowed read_member_history c = has_active_membership c
action_allowed post_message c = has_active_membership c && is_room_active c.room_state
action_allowed update_topic c = has_active_membership c && is_room_moderator c
action_allowed set_room_mode c = has_active_membership c && is_room_moderator c
action_allowed invite_member c = has_active_membership c && is_room_manager c
action_allowed manage_room c = has_active_membership c && is_room_manager c
action_allowed kick_member c = has_active_membership c && is_room_moderator c
action_allowed ban_member c = has_active_membership c && is_room_moderator c
action_allowed mute_member c = has_active_membership c && is_room_moderator c
action_allowed remove_message c = has_active_membership c && is_room_moderator c
action_allowed view_moderation_queue c = false
action_allowed manage_reports c = false

unfoldable pub can_perform_chat_action : ChatAction → PermissionContext → Bool
unfolding is_chat_eligible action_allowed
can_perform_chat_action action c =
    if not (is_chat_eligible c)
    then false
    else if is_suspended c.room_state && not (is_global_admin c.global_role)
    then false
    else if is_global_admin c.global_role
    then true
    else action_allowed action c
