-- ===== src/Schema.antt =====
-- core/sdata: the paths between two tables of the schema.
pub mod Path
pub mod Reach
mod Tests
