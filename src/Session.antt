-- ===== src/Session.antt =====
-- src/session.h, src/session.cpp: one client's connection and the relay to its server.
pub mod Io
pub mod Connect
pub mod Endpoints
pub mod Frame
pub mod Stream
pub mod Start
pub mod Create
pub mod Attempts
pub mod Forwards
pub mod Access
pub mod Made
pub mod Relay
pub mod Events
pub mod Kept
pub mod Closing
