-- ===== src/Irc.antt =====
-- The bridge to external IRC networks (services/external-irc): the lines of the protocol, and the
-- session over a transport.
pub mod Protocol
pub mod Session
mod Tests
