-- ===== src/Runtime.antt =====
-- src/workers and src/adapters/shared/retry.ts: interval workers, their registry, and retries.
pub mod Retry
pub mod Registry
pub mod Worker
pub mod Shutdown
mod Tests
