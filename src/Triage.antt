-- ===== src/Triage.antt =====
-- What the founder's messages mean: the captures that a thread is armed with.
pub mod DraftReview
pub mod Markers
pub mod Meetings
pub mod Samples
pub mod Slots
