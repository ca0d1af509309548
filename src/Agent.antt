-- ===== src/Agent.antt =====
-- srv6_mrc/mrc/agent.py: the sender's agent, which keeps a flow's table and emit windows.
pub mod Sender
pub mod Windows
pub mod Calls
pub mod Rotation
pub mod Receiver
pub mod Nacks
pub mod Reports
pub mod Probes
