-- ===== src/Server.antt =====
-- The API server, api-server.
pub mod Limiter
pub mod Alerts
pub mod Persistence
pub mod Stream
pub mod Consumer
pub mod Metrics
pub mod Origins
pub mod Health
pub mod Batches
pub mod Suspicions
pub mod Database
pub mod Hub
pub mod Start
