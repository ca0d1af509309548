-- ===== src/Wire.antt =====
-- The wire formats of srv6_mrc/mrc/probe.py: PROBE, LOSS_REPORT and NACK payloads.
pub mod Struct
pub mod Defs
pub mod RoundTrip
pub mod Reports
