-- ===== src/Apps.antt =====
-- The applications of sw/applications.
pub mod Hello
pub mod Timer
mod Tests
