-- ===== src/Net.antt =====
-- The network layer: messages, their encryption, and the framing of a connection.
pub mod Message
pub mod Xtea
pub mod Adler
pub mod Output
pub mod Protocol
pub mod Connection
mod Tests
