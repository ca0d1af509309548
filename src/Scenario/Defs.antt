-- ===== src/Scenario/Defs.antt =====
-- srv6_mrc/mrc/scenario.py: `validate`, and the overrides of a validated scenario.
use Prim.Native.String.{String}
use srv6_mrc_emulator.Common.{ℕ, Bool, true, false, List, [], ◌∷◌, map, Option, none, some}
use srv6_mrc_emulator.EvState.Defs.{Ratio}
use srv6_mrc_emulator.Topo.Addresses.{Fabric, SidMode}
use srv6_mrc_emulator.Trim.Defs.{TrimSpec}
use srv6_mrc_emulator.Scenario.Outcome.{
  Place, Checked, done, scenario_error, need, at_place, each_from, ◌>>=◌, ◌>>◌,
}
use srv6_mrc_emulator.Scenario.Value.{
  Value, Entries, list, mapping, nil, cons, items, get, require_keys,
}
use srv6_mrc_emulator.Scenario.Numbers.{parse_rate, parse_duration}
use srv6_mrc_emulator.Scenario.Policies.{policy_from_spec}
use srv6_mrc_emulator.Scenario.Pairs.{FlowPair, resolve_pairs, field, field_at, item_at}
use srv6_mrc_emulator.Scenario.Mrc.{MrcSpec, validate_mrc}
use srv6_mrc_emulator.Scenario.Blocks.{
  FaultSpec, Transport, require_str, opt_str, validate_faults, validate_report,
  validate_paths_per_plane, validate_sid_mode, validate_transport, validate_trim,
}

-- The label of the policy, for reports, is left out.
pub record FlowSpec : Type 0 where
  pub pairs : List FlowPair
  pub policy_spec : Value
  pub rate_pps : ℕ
  pub duration_s : Ratio

pub record Scenario : Type 0 where
  pub name : String
  pub description : String
  pub flows : List FlowSpec
  pub faults : List FaultSpec
  pub report : Option String
  pub mrc : Option MrcSpec
  pub paths_per_plane : Option ℕ
  pub sid : Option SidMode
  pub transport : Option Transport
  pub trim : Option TrimSpec

abbrev pub flow_of : Fabric → Place → Entries → Checked FlowSpec
flow_of f path d = do
  require_keys d path ("pairs" ∷ "policy" ∷ "rate" ∷ "duration" ∷ []) []
  pairs ← resolve_pairs f (field "pairs" d) (field_at path "pairs")
  policy ← at_place (field_at path "policy") (policy_from_spec f.shape (field "policy" d))
  rate_pps ← parse_rate (field "rate" d) (field_at path "rate")
  duration_s ← parse_duration (field "duration" d) (field_at path "duration")
  done (record {
    pairs = pairs;
    policy_spec = field "policy" d;
    rate_pps = rate_pps;
    duration_s = duration_s;
  })

unfoldable pub validate_flow : Fabric → Place → ℕ → Value → Checked FlowSpec
validate_flow f path i (mapping d) = flow_of f (item_at path i) d
validate_flow f path i _ = scenario_error (item_at path i)

unfoldable pub validate_flows : Fabric → Value → Place → Checked (List FlowSpec)
validate_flows f (list nil) path = scenario_error path
validate_flows f (list (cons v vs)) path = each_from 0 (validate_flow f path) (v ∷ items vs)
validate_flows f _ path = scenario_error path

-- A block that is looked at only if its key is there.
abbrev pub if_present :
    {A : Type 0} → (Value → Place → Checked A) → Option Value → Place → Checked (Option A)
if_present check none path = done none
if_present check (some v) path = check v path >>= λ a. done (some a)

abbrev pub has_mrc : Option TrimSpec → Option MrcSpec → Bool
has_mrc (some t) none = false
has_mrc _ _ = true

unfoldable pub scenario_of : Fabric → Entries → Checked Scenario
scenario_of f d = do
  require_keys d [] ("name" ∷ "flows" ∷ []) (
      "description" ∷ "faults" ∷ "report" ∷ "mrc" ∷ "paths_per_plane" ∷ "sid" ∷ "transport" ∷ "trim"
      ∷ [])
  name ← require_str (field "name" d) (field_at [] "name")
  description ← opt_str "" (get "description" d) (field_at [] "description")
  flows ← validate_flows f (field "flows" d) (field_at [] "flows")
  faults ← validate_faults f (get "faults" d) (field_at [] "faults")
  report ← validate_report (get "report" d) (field_at [] "report")
  mrc ← if_present validate_mrc (get "mrc" d) (field_at [] "mrc")
  paths_per_plane ←
      validate_paths_per_plane f.shape.num_spines (get "paths_per_plane" d)
        (field_at [] "paths_per_plane")
  sid ← validate_sid_mode (get "sid" d) (field_at [] "sid")
  transport ← validate_transport (get "transport" d) (field_at [] "transport")
  trim ← if_present validate_trim (get "trim" d) (field_at [] "trim")
  need (has_mrc trim mrc) (field_at [] "trim")
  done (record {
    name = name;
    description = description;
    flows = flows;
    faults = faults;
    report = report;
    mrc = mrc;
    paths_per_plane = paths_per_plane;
    sid = sid;
    transport = transport;
    trim = trim;
  })

unfoldable pub validate : Fabric → Value → Checked Scenario
validate f (mapping d) = scenario_of f d
validate f _ = scenario_error []

abbrev pub with_duration : Ratio → FlowSpec → FlowSpec
with_duration duration_s fs = record fs { duration_s = duration_s }

unfoldable pub override_duration : Scenario → Ratio → Scenario
override_duration s duration_s = record s { flows = map (with_duration duration_s) s.flows }

unfoldable pub override_sid_mode : Scenario → SidMode → Scenario
override_sid_mode s sid_mode = record s { sid = some sid_mode }

unfoldable pub override_transport : Scenario → Transport → Scenario
override_transport s transport = record s { transport = some transport }
