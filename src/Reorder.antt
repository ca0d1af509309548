-- ===== src/Reorder.antt =====
-- srv6_mrc/reorder.py: what a receiver counts of a flow.
pub mod Defs
pub mod Counts
pub mod Tracker
pub mod Percentile
