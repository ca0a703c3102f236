-- ===== src/Query.antt =====
-- The founder's typed messages: the question pending on a thread takes them first.
pub mod PendingAsk
