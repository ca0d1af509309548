-- ===== src/LossWindow.antt =====
-- srv6_mrc/mrc/loss_window.py: the receiver's data-loss accounting.
pub mod Defs
pub mod Counting
pub mod Report
pub mod Arrivals
pub mod OnWire
