-- ===== src/Runner.antt =====
-- srv6_mrc/runner.py: the data sender and the data receiver.
pub mod Frame
pub mod Framing
pub mod Capture
pub mod Receiver
pub mod Accounts
pub mod Recovery
pub mod Recovered
pub mod Delivered
pub mod Plan
pub mod Sender
pub mod Sent
pub mod Run
pub mod Total
pub mod Retransmit
