-- ===== src/Telemetry.antt =====
-- Timing telemetry of camera-service/src/main.rs.
pub mod Histogram
pub mod Summary
pub mod Buckets
pub mod Percentile
pub mod Window
pub mod Payload
pub mod Routing
mod Tests
