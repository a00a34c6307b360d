-- ===== src/Jsn.antt =====
-- core/jsn: the functions on JSON text.
pub mod Validate
mod Tests
