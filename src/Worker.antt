-- ===== src/Worker.antt =====
-- The worker of src/stakeroute/worker: the subject handlers, settlement and expiry, the consume loop.
pub mod Messages
pub mod Forecasts
pub mod Runner
pub mod Pipeline
pub mod Updates
pub mod System
pub mod Process
pub mod Consume
