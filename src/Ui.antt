-- ===== src/Ui.antt =====
-- ui: the table of sessions and its filter.
pub mod Table
pub mod Filter
pub mod Widths
pub mod Setters
pub mod Accepts
pub mod Records
