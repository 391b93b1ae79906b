-- ===== src/Chat/Permissions/Roles.antt =====
-- What a role gives: a higher one never takes a permission away, and the limits that no role lifts.
use arctic_rss.Prelude.{ℕ, ◌≤◌, ◌≡◌, true, false, Option, some, arith}
use arctic_rss.Chat.Permissions.{
  MemberRole, RoomState, MemberStatus, GlobalRole, ChatAction, PermissionContext, post_message,
  can_perform_chat_action, is_chat_eligible, action_allowed, is_suspended, is_room_active,
  active_member, moderator_role, manager_role, owner, operator, voice, member,
}

abbrev rank : MemberRole → ℕ
rank owner = 4
rank MemberRole.admin = 3
rank operator = 2
rank voice = 1
rank member = 0

abbrev pub with_role : MemberRole → PermissionContext → PermissionContext
with_role role c = record c { room_role = some role }

moderator-rank :
    (low high : MemberRole)
    → rank low ≤ rank high
    → moderator_role (some low) ≡ true
    → moderator_role (some high) ≡ true
moderator-rank low high h m = ground arith

manager-rank :
    (low high : MemberRole)
    → rank low ≤ rank high
    → manager_role (some low) ≡ true
    → manager_role (some high) ≡ true
manager-rank low high h m = ground arith

-- A member whose role is raised may still do everything it could do.
pub can_perform_monotone :
    (action : ChatAction) (c : PermissionContext) (low high : MemberRole)
    → rank low ≤ rank high
    → can_perform_chat_action action (with_role low c) ≡ true
    → can_perform_chat_action action (with_role high c) ≡ true
unfolding can_perform_chat_action
can_perform_monotone action c low high h p =
    ground (arith, moderator-rank low high h, manager-rank low high h)

-- Without the global role `ADMIN`, an action is allowed to an eligible account only, never in a
-- suspended room, and a message only to an active member of an active room.
pub record Guarded (action : ChatAction) (c : PermissionContext) : Type 0 where
  pub eligible : is_chat_eligible c ≡ true
  pub not_suspended : is_suspended c.room_state ≡ false
  pub posting :
      action ≡ post_message
      → (c.room_state ≡ some RoomState.active) × (c.room_member_status ≡ some MemberStatus.active)

room_active-eq : (o : Option RoomState) → is_room_active o ≡ true → o ≡ some RoomState.active
room_active-eq o h = ground arith

active_member-eq :
    (status : Option MemberStatus) (role : Option MemberRole)
    → active_member status role ≡ true
    → status ≡ some MemberStatus.active
active_member-eq status role h = ground arith

posting_guarded :
    (c : PermissionContext)
    → c.global_role ≡ GlobalRole.user
    → can_perform_chat_action post_message c ≡ true
    → (c.room_state ≡ some RoomState.active) × (c.room_member_status ≡ some MemberStatus.active)
unfolding can_perform_chat_action action_allowed
posting_guarded c h p = (
  room_active-eq c.room_state (ground arith),
  active_member-eq c.room_member_status c.room_role (ground arith),
)

-- What an account without the global role `ADMIN` is allowed to do is guarded so.
pub can_perform-Guarded :
    (action : ChatAction) (c : PermissionContext)
    → c.global_role ≡ GlobalRole.user
    → can_perform_chat_action action c ≡ true
    → Guarded action c
unfolding can_perform_chat_action
can_perform-Guarded action c h p = record {
  eligible = ground arith;
  not_suspended = ground arith;
  posting = λ e. posting_guarded c h (rw e at p);
}
