-- ===== src/Address.antt =====
-- Which addresses outgoing requests may not reach (isPrivateIpAddress and the functions below it in
-- src/lib/url-safety.ts).
pub mod Ipv4
pub mod Blocks
pub mod Ipv6
pub mod Groups
pub mod Mapped
mod Tests
