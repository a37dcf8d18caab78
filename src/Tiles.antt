-- ===== src/Tiles.antt =====
-- The tiles of the map, and what lies on them: src/tile.cpp, src/tile.h.
pub mod Item
pub mod Flags
pub mod Tile
mod Tests
