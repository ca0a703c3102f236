-- ===== src/Outbound.antt =====
-- src/outbound and src/adapters/outbound: the durable queue of customer-facing messages, the
-- founder's decisions on drafts, the send window and the drainer that dispatches.
pub mod Rows
pub mod Samples
pub mod Edges
pub mod Queue
pub mod Drafts
pub mod SendWindow
pub mod Drainer
pub mod Lifecycle
