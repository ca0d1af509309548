-- ===== src/LossCompute.antt =====
-- srv6_mrc/mrc/loss_compute.py: the sender's fusion of loss reports with its own sent counts.
pub mod Ring
pub mod Fusion
pub mod Pairing
pub mod Effects
pub mod Independence
