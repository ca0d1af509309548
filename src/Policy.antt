-- ===== src/Policy.antt =====
-- srv6_mrc/policy.py: how a sender chooses the EV of each packet.
pub mod Defs
pub mod Draw
pub mod Health
pub mod Spray
pub mod Snapshot
pub mod Twin
