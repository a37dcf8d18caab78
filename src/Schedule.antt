-- ===== src/Schedule.antt =====
-- The two threads that run the game's work: src/tasks.cpp and src/scheduler.cpp.
pub mod Dispatcher
pub mod Scheduler
pub mod Handover
mod Tests
