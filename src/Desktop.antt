-- ===== src/Desktop.antt =====
-- The desktop application of desktop/src/main.ts, as far as it decides something without its window.
pub mod Upload
pub mod Prepare
pub mod Transfer
