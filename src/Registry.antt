-- ===== src/Registry.antt =====
-- src/ModelRegistry.cpp: the models of a server by name. A load or a reload builds with the registry
-- unlocked, between two critical sections.
pub mod State
pub mod Operations
pub mod Sound
pub mod Steps
pub mod Queries
