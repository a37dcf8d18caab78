-- ===== src/Chat.antt =====
-- The chat channels of src/chat.cpp and src/chat.h, and their handlers of src/game.cpp.
pub mod Maps
pub mod Channel
pub mod Rooms
pub mod Requests
mod Tests
