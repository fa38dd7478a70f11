-- ===== src/Panels.antt =====
-- The dashboard's panels beside the console and the charts: what they show of the store.
pub mod Format
pub mod Feed
pub mod Health
pub mod Tracker
