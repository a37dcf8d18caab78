-- ===== src/Names.antt =====
-- The names of the players online.
pub mod WildcardTree
mod Tests
