-- ===== src/Daemon.antt =====
-- srv6_mrc/mrc/daemon.py: the process that shares one receive socket among a host's flows.
pub mod Defs
pub mod Counters
pub mod Routing
pub mod Delivery
pub mod Setup
