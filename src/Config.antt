-- ===== src/Config.antt =====
-- src/ConfigReader.h, src/ConfigReader.cpp: the settings and the users of the configuration file.
pub mod Map
pub mod Text
pub mod Parse
pub mod Lines
pub mod Reduce
pub mod Settings
pub mod Users
pub mod Values
pub mod Instance
