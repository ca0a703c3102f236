-- ===== src/Llm.antt =====
-- src/adapters/llm: the daily budget of the model calls, their prices, and the router that makes them.
pub mod Budget
pub mod Pricing
pub mod Router
