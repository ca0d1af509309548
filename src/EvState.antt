-- ===== src/EvState.antt =====
-- srv6_mrc/mrc/ev_state.py: the health state machine of the entropy values (EVs).
pub mod Defs
pub mod Table
pub mod Spec
pub mod Refinement
pub mod Floor
pub mod Weights
pub mod Records
pub mod Run
pub mod Verdicts
pub mod Tick
pub mod Recovery
pub mod Tenants
