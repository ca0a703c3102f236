-- ===== src/FounderApp.antt =====
-- The founder's app, under app/src.
pub mod CalendarLayout
