-- ===== src/Scenario.antt =====
-- srv6_mrc/mrc/scenario.py: the checks of a scenario, and the values it hands to the agents.
pub mod Outcome
pub mod Value
pub mod Numbers
pub mod Policies
pub mod Pairs
pub mod Mrc
pub mod Blocks
pub mod Defs
pub mod Calls
pub mod Entries
pub mod PairSets
pub mod MrcValues
pub mod Valid
pub mod BlockValues
pub mod Whole
pub mod EnvFields
pub mod Env
pub mod Collectives
pub mod Runs
