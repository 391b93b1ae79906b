-- ===== src/Chat/Permissions/Tests.antt =====
-- An operator of a room.
use arctic_rss.Prelude.{◌≡◌, refl, true, none, some}
use arctic_rss.Chat.Permissions.{
  PermissionContext, GlobalRole, MemberStatus, RoomState, can_perform_chat_action, is_chat_eligible,
  action_allowed, set_room_mode, post_message, operator,
}
use arctic_rss.Chat.Permissions.Roles.{Guarded, can_perform-Guarded}

abbrev context : PermissionContext
context = record {
  account_disabled = none;
  chat_enabled = true;
  email_verified = true;
  global_role = GlobalRole.user;
  room_member_status = some MemberStatus.active;
  room_role = some operator;
  room_state = some RoomState.active;
}

may_set_mode : can_perform_chat_action set_room_mode context ≡ true
unfolding can_perform_chat_action is_chat_eligible action_allowed
may_set_mode = refl

may_post : can_perform_chat_action post_message context ≡ true
unfolding can_perform_chat_action is_chat_eligible action_allowed
may_post = refl

can_perform-Guarded_example : Guarded post_message context
can_perform-Guarded_example = can_perform-Guarded post_message context refl may_post
