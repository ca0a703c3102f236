-- ===== src/Scheduling.antt =====
-- src/scheduling: the actions that the founder has put on a schedule.
pub mod Rows
pub mod Creation
pub mod Actions
pub mod Lifecycle
pub mod Samples
