-- ===== src/Tests.antt =====
-- Runs of the definitions on small inputs, and every theorem with a premise at an input.
mod Dashboard
mod Engine
mod Metrics
mod Server
mod Statistics
mod Services
mod Pipeline
mod Traffic
mod Values
mod Views
mod System
mod Database
mod Hub
mod Start
