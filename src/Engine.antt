-- ===== src/Engine.antt =====
-- The capture engine, core-engine/src.
pub mod Scoring
pub mod Capture
pub mod Messages
pub mod Statistics
pub mod Processor
pub mod Interfaces
pub mod Processes
pub mod Demo
pub mod Start
