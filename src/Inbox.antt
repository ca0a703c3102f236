-- ===== src/Inbox.antt =====
-- src/inbox: the inbound messages, from their ingestion to the end of their triage.
pub mod Rows
pub mod Queue
pub mod Ingestion
pub mod Steps
pub mod Samples
