-- ===== src/Scenario/Mrc.antt =====
-- srv6_mrc/mrc/scenario.py: the `mrc:` block; and srv6_mrc/mrc/agent.py: the configurations that it becomes.
use Prim.Native.String.{String}
use srv6_mrc_emulator.Common.{
  ℕ, Bool, true, false, not, ◌&&◌, ◌||◌, List, [], ◌∷◌, ◌++◌, Option, none, some, ltb, leb, ◌==◌,
  if◌then◌else◌,
}
use srv6_mrc_emulator.Topo.Addresses.{contains}
use srv6_mrc_emulator.EvState.Defs.{Ratio, EvStateConfig}
use srv6_mrc_emulator.Scenario.Outcome.{
  Place, Checked, done, scenario_error, wrong_value, wrong_type, need_value, ◌>>=◌, ◌>>◌,
}
use srv6_mrc_emulator.Scenario.Value.{
  Value, Entries, null, pos, float, mapping, empty, entry, get, require_keys, all_known,
}
use srv6_mrc_emulator.Scenario.Pairs.{field_at}

pub record MrcSpec : Type 0 where
  pub probe_interval_ms : Option ℕ
  pub probe_timeout_ms : Option ℕ
  pub loss_window_ms : Option ℕ
  pub max_window_skew_ms : Option ℕ
  pub probe_window_ticks : Option ℕ
  pub probe_min_samples : Option ℕ
  pub probe_fail_ratio : Option Ratio
  pub probe_recover_ratio : Option Ratio
  pub probe_recover_ticks : Option ℕ
  pub loss_threshold : Option Ratio
  pub loss_demote_consecutive : Option ℕ
  pub min_active_evs : Option ℕ
  pub loss_backoff_max_level : Option ℕ
  pub loss_backoff_reset_ticks : Option ℕ

abbrev pub no_mrc_values : MrcSpec
no_mrc_values = record {
  probe_interval_ms = none;
  probe_timeout_ms = none;
  loss_window_ms = none;
  max_window_skew_ms = none;
  probe_window_ticks = none;
  probe_min_samples = none;
  probe_fail_ratio = none;
  probe_recover_ratio = none;
  probe_recover_ticks = none;
  loss_threshold = none;
  loss_demote_consecutive = none;
  min_active_evs = none;
  loss_backoff_max_level = none;
  loss_backoff_reset_ticks = none;
}

-- _MRC_POSITIVE_INT_FIELDS, and so on
abbrev pub positive_int_fields : List String
positive_int_fields =
    "probe_interval_ms" ∷ "probe_timeout_ms" ∷ "loss_window_ms" ∷ "max_window_skew_ms"
    ∷ "probe_window_ticks" ∷ "probe_min_samples" ∷ "probe_recover_ticks" ∷ "loss_demote_consecutive"
    ∷ "min_active_evs" ∷ "loss_backoff_reset_ticks" ∷ []

abbrev pub non_negative_int_fields : List String
non_negative_int_fields = "loss_backoff_max_level" ∷ []

abbrev pub ratio_fields : List String
ratio_fields = "probe_fail_ratio" ∷ "probe_recover_ratio" ∷ "loss_threshold" ∷ []

-- An int from `least` on.
abbrev pub int_from : ℕ → Option Value → Place → Checked (Option ℕ)
int_from least none path = done none
int_from least (some (pos n)) path = if leb least n then done (some n) else scenario_error path
int_from least (some v) path = scenario_error path

-- 0.0 <= float(v) <= 1.0
abbrev pub unit_interval : Value → Place → Checked Ratio
unit_interval (pos n) path =
    if leb n 1 then done (record { num = n; den = 1 }) else scenario_error path
unit_interval (float negative r) path =
    if (not negative || r.num == 0) && leb r.num r.den then done r else scenario_error path
unit_interval _ path = scenario_error path

abbrev pub ratio_in : Option Value → Place → Checked (Option Ratio)
ratio_in none path = done none
ratio_in (some v) path = unit_interval v path >>= λ r. done (some r)

-- One field of the block.
abbrev pub int_field : ℕ → Entries → Place → String → Checked (Option ℕ)
int_field least d path k = int_from least (get k d) (field_at path k)

abbrev pub ratio_field : Entries → Place → String → Checked (Option Ratio)
ratio_field d path k = ratio_in (get k d) (field_at path k)

unfoldable pub mrc_of : Entries → Place → Checked MrcSpec
mrc_of d path = do
  require_keys d path [] (positive_int_fields ++ (non_negative_int_fields ++ ratio_fields))
  a ← int_field 1 d path "probe_interval_ms"
  b ← int_field 1 d path "probe_timeout_ms"
  c ← int_field 1 d path "loss_window_ms"
  e ← int_field 1 d path "max_window_skew_ms"
  f ← int_field 1 d path "probe_window_ticks"
  g ← int_field 1 d path "probe_min_samples"
  h ← int_field 1 d path "probe_recover_ticks"
  i ← int_field 1 d path "loss_demote_consecutive"
  j ← int_field 1 d path "min_active_evs"
  k ← int_field 1 d path "loss_backoff_reset_ticks"
  l ← int_field 0 d path "loss_backoff_max_level"
  m ← ratio_field d path "probe_fail_ratio"
  n ← ratio_field d path "probe_recover_ratio"
  o ← ratio_field d path "loss_threshold"
  done (record {
    probe_interval_ms = a;
    probe_timeout_ms = b;
    loss_window_ms = c;
    max_window_skew_ms = e;
    probe_window_ticks = f;
    probe_min_samples = g;
    probe_fail_ratio = m;
    probe_recover_ratio = n;
    probe_recover_ticks = h;
    loss_threshold = o;
    loss_demote_consecutive = i;
    min_active_evs = j;
    loss_backoff_max_level = l;
    loss_backoff_reset_ticks = k;
  })

unfoldable pub validate_mrc : Value → Place → Checked MrcSpec
validate_mrc null path = done no_mrc_values
validate_mrc (mapping d) path = mrc_of d path
validate_mrc _ path = scenario_error path

abbrev pub int_value : Option ℕ → Option Value
int_value none = none
int_value (some n) = some (pos n)

abbrev pub ratio_value : Option Ratio → Option Value
ratio_value none = none
ratio_value (some r) = some (float false r)

-- The fields by name, in the order of `sort_keys`.
abbrev pub fields_of : MrcSpec → List (String × Option Value)
fields_of s =
    ("loss_backoff_max_level", int_value s.loss_backoff_max_level)
    ∷ ("loss_backoff_reset_ticks", int_value s.loss_backoff_reset_ticks)
    ∷ ("loss_demote_consecutive", int_value s.loss_demote_consecutive)
    ∷ ("loss_threshold", ratio_value s.loss_threshold)
    ∷ ("loss_window_ms", int_value s.loss_window_ms)
    ∷ ("max_window_skew_ms", int_value s.max_window_skew_ms)
    ∷ ("min_active_evs", int_value s.min_active_evs)
    ∷ ("probe_fail_ratio", ratio_value s.probe_fail_ratio)
    ∷ ("probe_interval_ms", int_value s.probe_interval_ms)
    ∷ ("probe_min_samples", int_value s.probe_min_samples)
    ∷ ("probe_recover_ratio", ratio_value s.probe_recover_ratio)
    ∷ ("probe_recover_ticks", int_value s.probe_recover_ticks)
    ∷ ("probe_timeout_ms", int_value s.probe_timeout_ms)
    ∷ ("probe_window_ticks", int_value s.probe_window_ticks)
    ∷ []

-- The fields that are not None.
unfoldable pub present : List (String × Option Value) → Entries
present [] = empty
present ((k, none) ∷ fs) = present fs
present ((k, some v) ∷ fs) = entry k v (present fs)

-- to_env_json: the object that `json.dumps` writes and `json.loads` reads back.
unfoldable pub to_env : MrcSpec → Entries
to_env s = present (fields_of s)

pub record AgentConfig : Type 0 where
  pub probe_interval_ms : ℕ
  pub probe_timeout_ms : ℕ
  pub loss_window_ms : ℕ
  pub max_window_skew_ms : ℕ
  pub use_loopback : Bool

-- The values that the records keep are of the types they declare. An object with a value of another type, which no
-- scenario writes, is outside the model and gives TypeError here.
abbrev pub int_or : ℕ → Option Value → Checked ℕ
int_or default none = done default
int_or default (some (pos n)) = done n
int_or default (some v) = wrong_type

abbrev pub option_int : Option Value → Checked (Option ℕ)
option_int none = done none
option_int (some (pos n)) = done (some n)
option_int (some null) = done none
option_int (some v) = wrong_type

abbrev pub ratio_or : Ratio → Option Value → Checked Ratio
ratio_or default none = done default
ratio_or default (some (float false r)) = done r
ratio_or default (some (pos n)) = done (record { num = n; den = 1 })
ratio_or default (some v) = wrong_type

-- AgentConfig(**kwargs)
unfoldable pub agent_config : Entries → Checked AgentConfig
agent_config d = do
  a ← int_or 500 (get "probe_interval_ms" d)
  b ← int_or 500 (get "probe_timeout_ms" d)
  c ← int_or 300 (get "loss_window_ms" d)
  e ← int_or 500 (get "max_window_skew_ms" d)
  need_value (ltb 0 a && (ltb 0 b && (ltb 0 c && ltb 0 e)))
  done (record {
    probe_interval_ms = a;
    probe_timeout_ms = b;
    loss_window_ms = c;
    max_window_skew_ms = e;
    use_loopback = false;
  })

-- EVStateConfig(**kwargs)
unfoldable pub ev_state_config : Entries → Checked EvStateConfig
ev_state_config d = do
  a ← int_or 5 (get "probe_window_ticks" d)
  b ← int_or 3 (get "probe_min_samples" d)
  c ← ratio_or (record { num = 1; den = 2 }) (get "probe_fail_ratio" d)
  e ← ratio_or (record { num = 9; den = 10 }) (get "probe_recover_ratio" d)
  f ← int_or 5 (get "probe_recover_ticks" d)
  g ← ratio_or (record { num = 1; den = 4 }) (get "loss_threshold" d)
  h ← int_or 3 (get "loss_demote_consecutive" d)
  i ← option_int (get "min_active_evs" d)
  j ← int_or 3 (get "loss_backoff_max_level" d)
  k ← int_or 60 (get "loss_backoff_reset_ticks" d)
  done (record {
    probe_window_ticks = a;
    probe_min_samples = b;
    probe_fail_ratio = c;
    probe_recover_ratio = e;
    probe_recover_ticks = f;
    loss_threshold = g;
    loss_demote_consecutive = h;
    min_active_evs = i;
    loss_backoff_max_level = j;
    loss_backoff_reset_ticks = k;
  })

abbrev pub agent_fields : List String
agent_fields =
    "probe_interval_ms" ∷ "probe_timeout_ms" ∷ "loss_window_ms" ∷ "max_window_skew_ms" ∷ []

abbrev pub ev_state_fields : List String
ev_state_fields =
    "probe_window_ticks" ∷ "probe_min_samples" ∷ "probe_fail_ratio" ∷ "probe_recover_ratio"
    ∷ "probe_recover_ticks" ∷ "loss_threshold" ∷ "loss_demote_consecutive" ∷ "min_active_evs"
    ∷ "loss_backoff_max_level" ∷ "loss_backoff_reset_ticks" ∷ []

-- if ev_kwargs
abbrev pub has_ev_values : Entries → Bool
has_ev_values empty = false
has_ev_values (entry k v d) = contains k ev_state_fields || has_ev_values d

abbrev pub some_config : Entries → Bool → Checked (Option EvStateConfig)
some_config d true = ev_state_config d >>= λ c. done (some c)
some_config d false = done none

-- load_configs_from_env, of the parsed text.
unfoldable pub load_configs : Value → Checked (AgentConfig × Option EvStateConfig)
load_configs (mapping d) = do
  need_value (all_known (agent_fields ++ ev_state_fields) d)
  ev ← some_config d (has_ev_values d)
  agent ← agent_config d
  done (agent, ev)
load_configs _ = wrong_value
