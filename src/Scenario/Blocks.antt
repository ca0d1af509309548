-- ===== src/Scenario/Blocks.antt =====
-- srv6_mrc/mrc/scenario.py: the entries of `faults:`, and the `report:`, `trim:` and other blocks.
use Prim.Native.String.{String}
use text.Mathlib.Text.{◌==◌ as str_eq}
use srv6_mrc_emulator.Common.{
  ℕ, zero, Bool, true, false, ◌&&◌, List, [], ◌∷◌, Option, none, some, leb, ◌==◌, if◌then◌else◌,
}
use srv6_mrc_emulator.Topo.Text.{codes}
use srv6_mrc_emulator.Topo.Addresses.{Fabric, SidMode, ua, un}
use srv6_mrc_emulator.Trim.Defs.{TrimSpec, Mode, trim_mode, drop_mode}
use srv6_mrc_emulator.Netem.Defs.{parse_target, normalize_spec}
use srv6_mrc_emulator.Scenario.Outcome.{
  Place, Checked, done, scenario_error, need, at_place, of_result, each_from, ◌>>=◌, ◌>>◌,
}
use srv6_mrc_emulator.Scenario.Value.{
  Value, Entries, null, flag, pos, float, str, list, mapping, empty, items, get, require_keys,
}
use srv6_mrc_emulator.Scenario.Pairs.{field, field_at, item_at}
use srv6_mrc_emulator.Scenario.Mrc.{unit_interval}

abbrev pub is_empty : String → Bool
is_empty String.[] = true
is_empty (String.◌∷◌ c s) = false

unfoldable pub require_str : Value → Place → Checked String
require_str (str s) path = if is_empty s then scenario_error path else done s
require_str _ path = scenario_error path

unfoldable pub opt_str : String → Option Value → Place → Checked String
opt_str default none path = done default
opt_str default (some (str s)) path = done s
opt_str default (some v) path = scenario_error path

-- A fault's kind is "netem".
pub record FaultSpec : Type 0 where
  pub target : String
  pub spec : String

abbrev pub fault_of : Fabric → Place → Entries → Checked FaultSpec
fault_of f path d = do
  require_keys d path ("kind" ∷ "target" ∷ "spec" ∷ []) []
  kind ← require_str (field "kind" d) (field_at path "kind")
  need (str_eq kind "netem") (field_at path "kind")
  target ← require_str (field "target" d) (field_at path "target")
  spec ← require_str (field "spec" d) (field_at path "spec")
  nics ← at_place (field_at path "target") (of_result (parse_target f (codes target)))
  tokens ← at_place (field_at path "spec") (of_result (normalize_spec (codes spec)))
  done (record { target = target; spec = spec })

unfoldable pub validate_fault : Fabric → Place → ℕ → Value → Checked FaultSpec
validate_fault f path i (mapping d) = fault_of f (item_at path i) d
validate_fault f path i _ = scenario_error (item_at path i)

-- doc.get("faults") or []: what is falsy counts as empty.
unfoldable pub validate_faults : Fabric → Option Value → Place → Checked (List FaultSpec)
validate_faults f none path = done []
validate_faults f (some null) path = done []
validate_faults f (some (flag false)) path = done []
validate_faults f (some (pos zero)) path = done []
validate_faults f (some (float negative r)) path =
    if r.num == 0 then done [] else scenario_error path
validate_faults f (some (str s)) path = if is_empty s then done [] else scenario_error path
validate_faults f (some (mapping empty)) path = done []
validate_faults f (some (list vs)) path = each_from 0 (validate_fault f path) (items vs)
validate_faults f (some v) path = scenario_error path

-- ReportSpec: its `out`.
abbrev pub report_out : Place → Option Value → Checked (Option String)
report_out path none = done none
report_out path (some null) = done none
report_out path (some (str s)) = done (some s)
report_out path (some v) = scenario_error path

unfoldable pub validate_report : Option Value → Place → Checked (Option String)
validate_report none path = done none
validate_report (some null) path = done none
validate_report (some (mapping d)) path =
    require_keys d path [] ("out" ∷ []) >> report_out (field_at path "out") (get "out" d)
validate_report (some v) path = scenario_error path

unfoldable pub validate_paths_per_plane : ℕ → Option Value → Place → Checked (Option ℕ)
validate_paths_per_plane num_spines none path = done none
validate_paths_per_plane num_spines (some null) path = done none
validate_paths_per_plane num_spines (some (pos n)) path =
    if leb 1 n && leb n num_spines then done (some n) else scenario_error path
validate_paths_per_plane num_spines (some v) path = scenario_error path

unfoldable pub validate_sid_mode : Option Value → Place → Checked (Option SidMode)
validate_sid_mode none path = done none
validate_sid_mode (some null) path = done none
validate_sid_mode (some (str s)) path =
    if str_eq s "uA"
    then done (some ua)
    else if str_eq s "uN"
    then done (some un)
    else scenario_error path
validate_sid_mode (some v) path = scenario_error path

pub data Transport : Type 0 where
  udp rdma : Transport

unfoldable pub validate_transport : Option Value → Place → Checked (Option Transport)
validate_transport none path = done none
validate_transport (some null) path = done none
validate_transport (some (str s)) path =
    if str_eq s "udp"
    then done (some udp)
    else if str_eq s "rdma"
    then done (some rdma)
    else scenario_error path
validate_transport (some v) path = scenario_error path

-- An int that is no bool, from zero on.
abbrev pub whole : Place → Value → Checked ℕ
whole path (pos n) = done n
whole path v = scenario_error path

abbrev pub whole_or : ℕ → Place → Option Value → Checked ℕ
whole_or default path none = done default
whole_or default path (some v) = whole path v

-- ints
unfoldable pub ints : Place → Value → Checked (List ℕ)
ints path (list vs) = each_from 0 (λ i v. whole path v) (items vs)
ints path v = scenario_error path

abbrev pub ints_or_none : Place → Option Value → Checked (List ℕ)
ints_or_none path none = done []
ints_or_none path (some v) = ints path v

abbrev pub ev_of : Place → List ℕ → Checked (ℕ × ℕ)
ev_of path (plane ∷ (spine ∷ [])) = done (plane, spine)
ev_of path _ = scenario_error path

abbrev pub trim_ev : Place → ℕ → Value → Checked (ℕ × ℕ)
trim_ev path i v = ints (item_at path i) v >>= ev_of (item_at path i)

abbrev pub trim_evs : Place → Option Value → Checked (List (ℕ × ℕ))
trim_evs path none = done []
trim_evs path (some (list vs)) = each_from 0 (trim_ev path) (items vs)
trim_evs path (some v) = scenario_error path

unfoldable pub trim_mode_of : Place → Option Value → Checked Mode
trim_mode_of path none = done trim_mode
trim_mode_of path (some (str s)) =
    if str_eq s "trim"
    then done trim_mode
    else if str_eq s "drop"
    then done drop_mode
    else scenario_error path
trim_mode_of path (some v) = scenario_error path

abbrev pub trim_of : Place → Entries → Checked TrimSpec
trim_of path d = do
  require_keys d path ("rate" ∷ []) ("mode" ∷ "planes" ∷ "evs" ∷ "seed" ∷ "max_retransmits" ∷ [])
  rate ← unit_interval (field "rate" d) (field_at path "rate")
  mode ← trim_mode_of (field_at path "mode") (get "mode" d)
  planes ← ints_or_none (field_at path "planes") (get "planes" d)
  evs ← trim_evs (field_at path "evs") (get "evs" d)
  seed ← whole_or 0 (field_at path "seed") (get "seed" d)
  max_retransmits ← whole_or 3 (field_at path "max_retransmits") (get "max_retransmits" d)
  done (record {
    rate = rate;
    mode = mode;
    planes = planes;
    evs = evs;
    seed = seed;
    max_retransmits = max_retransmits;
  })

unfoldable pub validate_trim : Value → Place → Checked TrimSpec
validate_trim (mapping d) path = trim_of path d
validate_trim _ path = scenario_error path
