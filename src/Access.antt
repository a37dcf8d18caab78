-- ===== src/Access.antt =====
-- Who gets in: the throttling of connections and the queue in front of a full server.
pub mod Throttle
pub mod WaitingList
mod Tests
