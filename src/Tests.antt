-- ===== src/Tests.antt =====
-- Runs of the modelled code on concrete inputs.
pub mod Data
pub mod Forecasts
pub mod Settlements
pub mod Batches
pub mod Pipeline
pub mod Rounds
pub mod System
pub mod Core
pub mod Attack
pub mod Transport
pub mod Simulator
