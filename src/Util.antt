-- ===== src/Util.antt =====
-- core/util: the relationship graph, its search for paths, and the stacks.
pub mod Graph
pub mod Paths
mod Tests
