-- ===== src/EvState/Table.antt =====
-- srv6_mrc/mrc/ev_state.py: the table over all tenants, its checks and its readers.
use srv6_mrc_emulator.Common.{
  ℕ, Bool, true, false, not, List, [], ◌∷◌, Option, none, some, ltb, leb, if◌then◌else◌, map, Grid,
  value_error, Result, ok, raise, ◌>>=◌, ◌>>◌, guard,
}
use Prim.Native.String.{String}
use text.Mathlib.Text.{◌==◌ as str_eq}
use srv6_mrc_emulator.EvState.Defs.{
  EvState, EvStateConfig, resolve_min_active, EvRecord, new_record, Ratio, zero_ratio, TenantEvs,
  Setup, all_cells, rebuild_weights, tick, probe_sent, probe_recv, loss_window, is_good,
}

pub record EvStateTable : Type 0 where
  pub setup : Setup
  pub tenants : List (String × TenantEvs)

-- A tenant's three dictionary entries, before the first weights are built.
abbrev pub blank_tenant : TenantEvs
blank_tenant = record {
  evs = λ p q. new_record;
  weights = λ p q. zero_ratio;
  ticks = 0;
  calls = [];
}

unfoldable pub new_tenant : Setup → TenantEvs
new_tenant su = rebuild_weights su blank_tenant

abbrev is_empty : List String → Bool
is_empty [] = true
is_empty (x ∷ xs) = false

abbrev pub make_setup : EvStateConfig → ℕ → ℕ → Setup
make_setup cfg num_planes num_paths = record {
  num_planes = num_planes;
  num_paths = num_paths;
  cfg = cfg;
  min_active = resolve_min_active cfg num_planes num_paths;
}

unfoldable pub new_table : List String → ℕ → ℕ → EvStateConfig → Result EvStateTable
new_table tenants num_planes num_paths cfg = do
  guard (not (is_empty tenants)) value_error
  guard (leb 1 num_planes) value_error
  guard (leb 1 num_paths) value_error
  let su = make_setup cfg num_planes num_paths
  ok (record { setup = su; tenants = map (λ t. (t, new_tenant su)) tenants })

unfoldable pub find_tenant : String → List (String × TenantEvs) → Option TenantEvs
find_tenant k [] = none
find_tenant k ((j, v) ∷ m) = if str_eq j k then some v else find_tenant k m

unfoldable pub put_tenant :
    String → TenantEvs → List (String × TenantEvs) → List (String × TenantEvs)
put_tenant k v [] = []
put_tenant k v ((j, w) ∷ m) = if str_eq j k then (j, v) ∷ m else (j, w) ∷ put_tenant k v m

unfoldable pub check_tenant : EvStateTable → String → Result TenantEvs
check_tenant t tenant = elim (find_tenant tenant t.tenants) [
  | none ↦ raise value_error
  | some s ↦ ok s
]

unfoldable pub check_ev : EvStateTable → ℕ → ℕ → Result (Unit {0})
check_ev t plane path = do
  guard (ltb plane t.setup.num_planes) value_error
  guard (ltb path t.setup.num_paths) value_error

abbrev pub store : EvStateTable → String → TenantEvs → EvStateTable
store t tenant s = record t { tenants = put_tenant tenant s t.tenants }

unfoldable pub record_probe_sent : EvStateTable → String → ℕ → ℕ → Result EvStateTable
record_probe_sent t tenant plane path = do
  s ← check_tenant t tenant
  check_ev t plane path
  ok (store t tenant (probe_sent s plane path))

unfoldable pub record_probe_recv : EvStateTable → String → ℕ → ℕ → Result EvStateTable
record_probe_recv t tenant plane path = do
  s ← check_tenant t tenant
  check_ev t plane path
  ok (store t tenant (probe_recv s plane path))

unfoldable pub tick_tenant : EvStateTable → String → Result EvStateTable
tick_tenant t tenant = do s ← check_tenant t tenant; ok (store t tenant (tick t.setup s))

unfoldable pub record_loss_window : EvStateTable → String → ℕ → ℕ → ℕ → ℕ → Result EvStateTable
record_loss_window t tenant plane path seen expected = do
  s ← check_tenant t tenant
  check_ev t plane path
  ok (store t tenant (loss_window t.setup s plane path seen expected))

unfoldable pub state : EvStateTable → String → ℕ → ℕ → Result EvState
state t tenant plane path = do
  s ← check_tenant t tenant
  check_ev t plane path
  ok (s.evs plane path).state

unfoldable pub weights_ev : EvStateTable → String → Result (Grid Ratio)
weights_ev t tenant = do s ← check_tenant t tenant; ok s.weights

unfoldable pub good_cells : Grid EvRecord → List (ℕ × ℕ) → List (ℕ × ℕ)
good_cells evs [] = []
good_cells evs (c ∷ cs) =
    if is_good (evs c.0 c.1).state then c ∷ good_cells evs cs else good_cells evs cs

unfoldable pub good_evs : EvStateTable → String → Result (List (ℕ × ℕ))
good_evs t tenant = do s ← check_tenant t tenant; ok (good_cells s.evs (all_cells t.setup))
