-- ===== src/Files.antt =====
-- src/fileloader.h and src/fileloader.cpp: the binary format of items and maps, and the property
-- streams in which items, players and houses are stored.
pub mod Properties
pub mod Otb
mod Tests
