-- ===== src/Transport.antt =====
-- src/stakeroute/transport: the drivers that bring messages to the consume loop.
pub mod Memory
