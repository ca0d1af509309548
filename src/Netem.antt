-- ===== src/Netem.antt =====
-- srv6_mrc/netem.py: the targets and the specs of injected faults.
pub mod Defs
