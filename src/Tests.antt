-- ===== src/Tests.antt =====
-- Examples for the theorems, each at one input on a small network.
mod Peer
mod Rows
mod Records
mod Relays
mod Lifetimes
mod Tables
mod Shown
mod Logs
mod Services
mod Controls
mod Entries
mod Endpoints
mod Handshakes
mod Requests
mod Answers
mod Sessions
mod Servers
mod Texts
