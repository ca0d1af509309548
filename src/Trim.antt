-- ===== src/Trim.antt =====
-- srv6_mrc/trim.py: synthetic trimming and bounded fast retransmits at a sender.
pub mod Defs
pub mod Oracle
pub mod Nacks
