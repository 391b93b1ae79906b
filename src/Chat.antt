-- ===== src/Chat.antt =====
-- Chat: who may do what in a room (src/lib/chat/permissions.ts), the limits on one socket and its
-- operations (services/chat-gateway/abuse.ts, services/chat-gateway/native-chat.ts), and the readiness
-- of the gateway (services/chat-gateway/redis-recovery.ts).
pub mod Permissions
pub mod Abuse
pub mod Socket
pub mod Recovery
