-- ===== src/Analytics.antt =====
-- The analytics service: services/analytics.
pub mod Tables
pub mod Projector
pub mod Events
pub mod Replay
pub mod Rebuild
