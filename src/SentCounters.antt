-- ===== src/SentCounters.antt =====
-- srv6_mrc/mrc/sent_counters.py: the sent counts that a data sender passes to the daemon by a file.
pub mod Defs
pub mod Cells
pub mod Link
pub mod Linked
pub mod Conservation
