-- ===== src/Batching.antt =====
-- src/BatchCompatibility.cpp and src/DynamicBatcher.cpp: which requests may share a batch, how they
-- are merged into one, and how the response to the batch is split.
pub mod Compat
pub mod Merge
pub mod Split
pub mod RoundTrip
mod Examples
