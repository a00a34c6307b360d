-- ===== src/Query.antt =====
-- core/graph: the lexer of GraphQL texts.
pub mod Unescape
pub mod Cursor
pub mod Lex
pub mod Stack
pub mod Ast
pub mod Parser
pub mod Forest
mod Tests
