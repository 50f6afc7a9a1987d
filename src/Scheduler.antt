-- ===== src/Scheduler.antt =====
-- src/Scheduler.hpp and src/ModelScheduler.cpp: the queue in front of a model's executors, its
-- workers, and the results that callers get.
pub mod Result
pub mod Pool
pub mod World
pub mod Submit
pub mod Drain
pub mod Process
