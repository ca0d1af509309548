-- ===== src/Scenario/Env.antt =====
-- srv6_mrc/mrc/scenario.py and agent.py: the `mrc:` block, in the configurations that it becomes.
use srv6_mrc_emulator.Common.{
  Bool, true, false, ◌||◌, List, [], ◌∷◌, Option, none, some, if◌then◌else◌,
}
use srv6_mrc_emulator.EvState.Defs.{EvStateConfig}
use srv6_mrc_emulator.Scenario.Value.{Value}
use srv6_mrc_emulator.Scenario.Mrc.{MrcSpec, AgentConfig}
use srv6_mrc_emulator.Scenario.EnvFields.{or_default}

-- What the agent's configuration should be: the values given, and the defaults for the others.
abbrev pub agent_config_of : MrcSpec → AgentConfig
agent_config_of s = record {
  probe_interval_ms = or_default 500 s.probe_interval_ms;
  probe_timeout_ms = or_default 500 s.probe_timeout_ms;
  loss_window_ms = or_default 300 s.loss_window_ms;
  max_window_skew_ms = or_default 500 s.max_window_skew_ms;
  use_loopback = false;
}

abbrev pub ev_state_of : MrcSpec → EvStateConfig
ev_state_of s = record {
  probe_window_ticks = or_default 5 s.probe_window_ticks;
  probe_min_samples = or_default 3 s.probe_min_samples;
  probe_fail_ratio = or_default (record { num = 1; den = 2 }) s.probe_fail_ratio;
  probe_recover_ratio = or_default (record { num = 9; den = 10 }) s.probe_recover_ratio;
  probe_recover_ticks = or_default 5 s.probe_recover_ticks;
  loss_threshold = or_default (record { num = 1; den = 4 }) s.loss_threshold;
  loss_demote_consecutive = or_default 3 s.loss_demote_consecutive;
  min_active_evs = s.min_active_evs;
  loss_backoff_max_level = or_default 3 s.loss_backoff_max_level;
  loss_backoff_reset_ticks = or_default 60 s.loss_backoff_reset_ticks;
}

-- There is one for the table only if one of its fields is given.
abbrev pub given : {A : Type 0} → Option A → Bool
given none = false
given (some a) = true

abbrev pub any_true : List Bool → Bool
any_true [] = false
any_true (b ∷ bs) = b || any_true bs

abbrev pub some_ev_given : MrcSpec → Bool
some_ev_given s = any_true (
    given s.loss_backoff_max_level
    ∷ given s.loss_backoff_reset_ticks
    ∷ given s.loss_demote_consecutive
    ∷ given s.loss_threshold
    ∷ given s.min_active_evs
    ∷ given s.probe_fail_ratio
    ∷ given s.probe_min_samples
    ∷ given s.probe_recover_ratio
    ∷ given s.probe_recover_ticks
    ∷ given s.probe_window_ticks
    ∷ [])

abbrev pub ev_of_spec : MrcSpec → Option EvStateConfig
ev_of_spec s = if some_ev_given s then some (ev_state_of s) else none
