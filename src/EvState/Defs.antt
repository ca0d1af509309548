-- ===== src/EvState/Defs.antt =====
-- srv6_mrc/mrc/ev_state.py: the records, and the steps that run under the table's lock for one tenant.
-- A float is an exact fraction. Every comparison the code makes is between a quotient of two counts
-- and a configured constant, so the fractions are compared by cross multiplication.
use srv6_mrc_emulator.Common.{
  ℕ, ◌+◌, ◌-◌, ◌*◌, ◌/◌, ◌^◌, Bool, true, false, not, ◌&&◌, List, [], ◌∷◌, ◌++◌, foldl, Option,
  none, some, ltb, leb, ◌==◌, if◌then◌else◌, min, max, sum_by, count_if, push_bounded, Grid,
  same_cell, set_cell, cells,
}

pub data EvState : Type 0 where
  unknown good assumed_bad : EvState

pub record Ratio : Type 0 where
  pub num : ℕ
  pub den : ℕ

abbrev pub ratio_lt : Ratio → Ratio → Bool
ratio_lt a b = ltb (a.num * b.den) (b.num * a.den)

abbrev pub ratio_le : Ratio → Ratio → Bool
ratio_le a b = leb (a.num * b.den) (b.num * a.den)

abbrev pub half : Ratio → Ratio
half a = record a { den = 2 * a.den }

abbrev pub zero_ratio : Ratio
zero_ratio = record { num = 0; den = 1 }

-- `_STATE_WEIGHT`, in halves: 1.0, 0.5 and 0.0.
unfoldable pub state_weight : EvState → ℕ
state_weight good = 2
state_weight unknown = 1
state_weight assumed_bad = 0

abbrev pub is_bad : EvState → Bool
is_bad assumed_bad = true
is_bad _ = false

abbrev pub is_good : EvState → Bool
is_good good = true
is_good _ = false

-- `old is new_state`
abbrev pub same_state : EvState → EvState → Bool
same_state unknown unknown = true
same_state good good = true
same_state assumed_bad assumed_bad = true
same_state _ _ = false

pub record EvStateConfig : Type 0 where
  pub probe_window_ticks : ℕ
  pub probe_min_samples : ℕ
  pub probe_fail_ratio : Ratio
  pub probe_recover_ratio : Ratio
  pub probe_recover_ticks : ℕ
  pub loss_threshold : Ratio
  pub loss_demote_consecutive : ℕ
  pub min_active_evs : Option ℕ
  pub loss_backoff_max_level : ℕ
  pub loss_backoff_reset_ticks : ℕ

abbrev pub default_config : EvStateConfig
default_config = record {
  probe_window_ticks = 5;
  probe_min_samples = 3;
  probe_fail_ratio = record { num = 1; den = 2 };
  probe_recover_ratio = record { num = 9; den = 10 };
  probe_recover_ticks = 5;
  loss_threshold = record { num = 1; den = 4 };
  loss_demote_consecutive = 3;
  min_active_evs = none;
  loss_backoff_max_level = 3;
  loss_backoff_reset_ticks = 60;
}

unfoldable pub resolve_min_active : EvStateConfig → ℕ → ℕ → ℕ
resolve_min_active cfg num_planes num_paths = elim cfg.min_active_evs [
  | none ↦ max 1 (num_planes * num_paths / 2)
  | some m ↦ max 1 (min m (num_planes * num_paths))
]

pub record EvRecord : Type 0 where
  pub state : EvState
  pub current_sent : ℕ
  pub current_recv : ℕ
  pub buckets : List (ℕ × ℕ)
  pub total_sent : ℕ
  pub total_recv : ℕ
  pub consecutive_healthy_windows : ℕ
  pub consecutive_loss_demote_windows : ℕ
  pub last_loss_ratio : Ratio
  pub last_probe_ratio : Ratio
  pub transitions : ℕ
  pub demotes_suppressed_by_floor : ℕ
  pub loss_demoted : Bool
  pub loss_backoff_level : ℕ
  pub last_loss_recover_tick : Option ℕ

abbrev pub new_record : EvRecord
new_record = record {
  state = unknown;
  current_sent = 0;
  current_recv = 0;
  buckets = [];
  total_sent = 0;
  total_recv = 0;
  consecutive_healthy_windows = 0;
  consecutive_loss_demote_windows = 0;
  last_loss_ratio = zero_ratio;
  last_probe_ratio = zero_ratio;
  transitions = 0;
  demotes_suppressed_by_floor = 0;
  loss_demoted = false;
  loss_backoff_level = 0;
  last_loss_recover_tick = none;
}

-- A call of `on_transition`.
pub record Transition : Type 0 where
  pub plane : ℕ
  pub path : ℕ
  pub old : EvState
  pub new : EvState

-- What the table keeps for one tenant: its rows of `_evs`, `_weights_cache` and `_ticks`, and the
-- calls of `on_transition` made so far.
pub record TenantEvs : Type 0 where
  pub evs : Grid EvRecord
  pub weights : Grid Ratio
  pub ticks : ℕ
  pub calls : List Transition

-- The fields of the table that never change.
pub record Setup : Type 0 where
  pub num_planes : ℕ
  pub num_paths : ℕ
  pub cfg : EvStateConfig
  pub min_active : ℕ

abbrev pub all_cells : Setup → List (ℕ × ℕ)
all_cells su = cells su.num_planes su.num_paths

-- `rec` is a reference into `_evs`: the steps below carry its current value, and write it back.
abbrev pub commit : TenantEvs → ℕ → ℕ → EvRecord → TenantEvs
commit s plane path rec = record s { evs = set_cell s.evs plane path rec }

-- Sum of the raw weights of the cells.
unfoldable pub weight_total : List (ℕ × ℕ) → Grid EvRecord → ℕ
weight_total cs evs = sum_by (λ c. state_weight (evs c.0 c.1).state) cs

unfoldable pub weights_of : Setup → Grid EvRecord → Grid Ratio
weights_of su evs plane path =
    let total = weight_total (all_cells su) evs in
    if total == 0
    then record { num = 1; den = su.num_planes * su.num_paths }
    else record { num = state_weight (evs plane path).state; den = total }

unfoldable pub rebuild_weights : Setup → TenantEvs → TenantEvs
rebuild_weights su s = record s { weights = weights_of su s.evs }

-- The fields that `_transition_locked` writes: those of a promotion, and those of a demotion.
unfoldable pub transition_fields : ℕ → EvState → EvRecord → EvRecord
transition_fields ticks good rec =
    let rec' = record rec {
      state = good;
      transitions = rec.transitions + 1;
      consecutive_healthy_windows = 0;
    } in
    if rec.loss_demoted
    then record rec' { last_loss_recover_tick = some ticks; loss_demoted = false }
    else rec'
transition_fields ticks assumed_bad rec = record rec {
  state = assumed_bad;
  transitions = rec.transitions + 1;
  consecutive_healthy_windows = 0;
  consecutive_loss_demote_windows = 0;
}
transition_fields ticks unknown rec = record rec {
  state = unknown;
  transitions = rec.transitions + 1;
}

unfoldable pub transition : Setup → TenantEvs → ℕ → ℕ → EvRecord → EvState → TenantEvs
transition su s plane path rec new_state =
    if same_state rec.state new_state
    then commit s plane path rec
    else let s' =
        rebuild_weights su (commit s plane path (transition_fields s.ticks new_state rec)) in
      record s' {
        calls =
            s'.calls
            ++ record { plane = plane; path = path; old = rec.state; new = new_state } ∷ [];
      }

-- The EVs other than (plane, path) that are not ASSUMED_BAD.
unfoldable pub usable_after : List (ℕ × ℕ) → Grid EvRecord → ℕ → ℕ → ℕ
usable_after cs evs plane path =
    count_if (λ c. not (same_cell plane path c.0 c.1) && not (is_bad (evs c.0 c.1).state)) cs

-- last is not None and ticks - last < loss_backoff_reset_ticks
abbrev pub is_recent : ℕ → ℕ → Option ℕ → Bool
is_recent reset ticks none = false
is_recent reset ticks (some last) = ltb ticks (last + reset)

unfoldable pub next_level : EvStateConfig → ℕ → EvRecord → ℕ
next_level cfg ticks rec =
    if is_recent cfg.loss_backoff_reset_ticks ticks rec.last_loss_recover_tick
    then min (rec.loss_backoff_level + 1) cfg.loss_backoff_max_level
    else 0

-- The fields that `_try_demote_locked` writes before the transition.
unfoldable pub demote_fields : EvStateConfig → ℕ → Bool → EvRecord → EvRecord
demote_fields cfg ticks by_loss rec = record rec {
  loss_backoff_level = if by_loss then next_level cfg ticks rec else rec.loss_backoff_level;
  loss_demoted = by_loss;
}

unfoldable pub try_demote : Setup → TenantEvs → ℕ → ℕ → EvRecord → Bool → TenantEvs
try_demote su s plane path rec by_loss =
    if ltb (usable_after (all_cells su) s.evs plane path) su.min_active
    then commit s plane path
        (record rec { demotes_suppressed_by_floor = rec.demotes_suppressed_by_floor + 1 })
    else transition su s plane path (demote_fields su.cfg s.ticks by_loss rec) assumed_bad

abbrev pub window_sent : EvRecord → ℕ
window_sent rec = sum_by (λ b. b.0) rec.buckets

abbrev pub window_recv : EvRecord → ℕ
window_recv rec = sum_by (λ b. b.1) rec.buckets

-- How many healthy windows in a row a recovery needs: `hold <<= loss_backoff_level`.
unfoldable pub recover_hold : EvStateConfig → EvRecord → ℕ
recover_hold cfg rec =
    if rec.loss_demoted
    then cfg.probe_recover_ticks * 2 ^ rec.loss_backoff_level
    else cfg.probe_recover_ticks

-- `_evaluate_locked` once the window has traffic, on its ratio.
unfoldable pub judge : Setup → TenantEvs → ℕ → ℕ → EvRecord → ℕ → Ratio → TenantEvs
judge su s plane path rec sent ratio =
    if ltb sent su.cfg.probe_min_samples
    then commit s plane path (record rec { consecutive_healthy_windows = 0 })
    else if ratio_lt ratio su.cfg.probe_fail_ratio
    then (let rec' = record rec { consecutive_healthy_windows = 0 } in
        if is_bad rec.state
        then commit s plane path rec'
        else try_demote su s plane path rec' false)
    else if ratio_le su.cfg.probe_recover_ratio ratio
    then (let rec' = record rec {
      consecutive_healthy_windows = rec.consecutive_healthy_windows + 1;
    } in
        if not (is_good rec.state)
          && (rec.consecutive_loss_demote_windows == 0
              && leb (recover_hold su.cfg rec) rec'.consecutive_healthy_windows)
        then transition su s plane path rec' good
        else commit s plane path rec')
    else commit s plane path (record rec { consecutive_healthy_windows = 0 })

unfoldable pub evaluate : Setup → TenantEvs → ℕ → ℕ → EvRecord → TenantEvs
evaluate su s plane path rec =
    let sent = window_sent rec in
    let ratio : Ratio = record { num = min (window_recv rec) sent; den = sent } in
    if sent == 0
    then commit s plane path (record rec { last_probe_ratio = zero_ratio })
    else judge su s plane path (record rec { last_probe_ratio = ratio }) sent ratio

-- `rec.buckets.append(...)` and the reset of the bucket in progress.
unfoldable pub rotate : EvStateConfig → EvRecord → EvRecord
rotate cfg rec = record rec {
  buckets = push_bounded cfg.probe_window_ticks rec.buckets (rec.current_sent, rec.current_recv);
  current_sent = 0;
  current_recv = 0;
}

unfoldable pub tick_cell : Setup → TenantEvs → ℕ × ℕ → TenantEvs
tick_cell su s (plane, path) = evaluate su s plane path (rotate su.cfg (s.evs plane path))

unfoldable pub tick : Setup → TenantEvs → TenantEvs
tick su s = foldl (tick_cell su) (record s { ticks = s.ticks + 1 }) (all_cells su)

unfoldable pub probe_sent : TenantEvs → ℕ → ℕ → TenantEvs
probe_sent s plane path =
    let rec = s.evs plane path in
    commit s plane path
      (record rec { current_sent = rec.current_sent + 1; total_sent = rec.total_sent + 1 })

unfoldable pub probe_recv : TenantEvs → ℕ → ℕ → TenantEvs
probe_recv s plane path =
    let rec = s.evs plane path in
    commit s plane path
      (record rec { current_recv = rec.current_recv + 1; total_recv = rec.total_recv + 1 })

-- `record_loss_window` past its checks.
unfoldable pub loss_window : Setup → TenantEvs → ℕ → ℕ → ℕ → ℕ → TenantEvs
loss_window su s plane path seen expected =
    let ratio : Ratio = record { num = expected - min seen expected; den = expected } in
    let rec = record (s.evs plane path) { last_loss_ratio = ratio } in
    if expected == 0
    then s
    else if ratio_lt su.cfg.loss_threshold ratio
    then (let rec' = record rec {
      consecutive_loss_demote_windows = rec.consecutive_loss_demote_windows + 1;
    } in
        if not (is_bad rec.state)
          && leb su.cfg.loss_demote_consecutive rec'.consecutive_loss_demote_windows
        then try_demote su s plane path rec' true
        else commit s plane path rec')
    else if ratio_le ratio (half su.cfg.loss_threshold)
    then commit s plane path (record rec { consecutive_loss_demote_windows = 0 })
    else commit s plane path rec
