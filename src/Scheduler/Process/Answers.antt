-- ===== src/Scheduler/Process/Answers.antt =====
-- Every request that a worker takes is answered, once.
pub mod Single
pub mod Lists
pub mod Active
pub mod Batch
