-- ===== src/Agent/Nacks.antt =====
-- srv6_mrc/mrc/agent.py and srv6_mrc/trim.py: a trimmed arrival, the NACK it gives, and what the sender
-- does with it.
use srv6_mrc_emulator.LossWindow.Defs.{record_trimmed as table_trimmed}
use srv6_mrc_emulator.Agent.Receiver.{record_trimmed}
