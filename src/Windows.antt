-- ===== src/Windows.antt =====
-- service/windows: the service that runs the proxy, and the program that controls it.
pub mod Desktop
pub mod Controls
pub mod Clicks
pub mod Status
pub mod Reports
pub mod Pipe
