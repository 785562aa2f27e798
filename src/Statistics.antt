-- ===== src/Statistics.antt =====
-- src/stat_db_service.h, src/stat_db_service.cpp, src/stat_handlers.cpp: the sessions' records.
pub mod Sqlite
pub mod Service
pub mod Laws
pub mod Calls
pub mod Refine
pub mod Overflow
pub mod Available
pub mod Sessions
pub mod Selection
pub mod Started
pub mod Account
pub mod Forms
pub mod Reads
pub mod Ends
pub mod Credits
pub mod Relay
pub mod Lifetime
