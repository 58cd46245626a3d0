-- ===== src/Core.antt =====
-- The deterministic core, src/stakeroute/core: pure functions of their arguments.
pub mod Types
pub mod Scoring
pub mod Decimal
pub mod Settlement
pub mod Attack
pub mod Reputation
pub mod Independence
pub mod Baselines
pub mod Market
pub mod Ranking
