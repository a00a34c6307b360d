-- ===== src/Runtime.antt =====
-- core/runtime: what runs around a query.
pub mod Retry
mod Tests
