-- ===== src/Scenario/Whole.antt =====
-- srv6_mrc/mrc/scenario.py: what `validate` gives, or which error.
use srv6_mrc_emulator.Scenario.Value.{Value, Entries}
