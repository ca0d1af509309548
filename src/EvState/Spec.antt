-- ===== src/EvState/Spec.antt =====
-- srv6_mrc/mrc/ev_state.py: what one signal does to one EV record, apart from the table. `usable` is
-- the number of the other EVs that are not ASSUMED_BAD.
use srv6_mrc_emulator.Common.{
  ℕ, ◌+◌, ◌-◌, Bool, true, false, not, ◌&&◌, [], ◌∷◌, ◌++◌, ltb, leb, ◌==◌, if◌then◌else◌, min,
}
use srv6_mrc_emulator.EvState.Defs.{
  EvState, good, assumed_bad, Ratio, ratio_lt, ratio_le, half, zero_ratio, is_bad, is_good,
  same_state, EvRecord, TenantEvs, Setup, commit, rebuild_weights, transition_fields, demote_fields,
  window_sent, window_recv, recover_hold,
}

-- A write of one record, with what `_transition_locked` does if the state changes.
unfoldable pub settle : Setup → TenantEvs → ℕ → ℕ → EvState → EvRecord → TenantEvs
settle su s plane path old rec =
    if same_state old rec.state
    then commit s plane path rec
    else let s' = rebuild_weights su (commit s plane path rec) in
      record s' {
        calls = s'.calls ++ record { plane = plane; path = path; old = old; new = rec.state } ∷ [];
      }

unfoldable pub demoted : Setup → ℕ → ℕ → Bool → EvRecord → EvRecord
demoted su usable ticks by_loss rec =
    if ltb usable su.min_active
    then record rec { demotes_suppressed_by_floor = rec.demotes_suppressed_by_floor + 1 }
    else transition_fields ticks assumed_bad (demote_fields su.cfg ticks by_loss rec)

unfoldable pub judged : Setup → ℕ → ℕ → EvRecord → ℕ → Ratio → EvRecord
judged su usable ticks rec sent ratio =
    let unhealthy = record rec { consecutive_healthy_windows = 0 } in
    let healthy = record rec {
      consecutive_healthy_windows = rec.consecutive_healthy_windows + 1;
    } in
    if ltb sent su.cfg.probe_min_samples
    then unhealthy
    else if ratio_lt ratio su.cfg.probe_fail_ratio
    then (if is_bad rec.state then unhealthy else demoted su usable ticks false unhealthy)
    else if ratio_le su.cfg.probe_recover_ratio ratio
    then (if not (is_good rec.state)
          && (rec.consecutive_loss_demote_windows == 0
              && leb (recover_hold su.cfg rec) healthy.consecutive_healthy_windows)
        then transition_fields ticks good healthy
        else healthy)
    else unhealthy

abbrev pub window_ratio : EvRecord → Ratio
window_ratio rec = record { num = min (window_recv rec) (window_sent rec); den = window_sent rec }

unfoldable pub evaluated : Setup → ℕ → ℕ → EvRecord → EvRecord
evaluated su usable ticks rec =
    if window_sent rec == 0
    then record rec { last_probe_ratio = zero_ratio }
    else judged su usable ticks (record rec { last_probe_ratio = window_ratio rec })
        (window_sent rec) (window_ratio rec)

abbrev pub loss_ratio : ℕ → ℕ → Ratio
loss_ratio seen expected = record { num = expected - min seen expected; den = expected }

unfoldable pub loss_recorded : Setup → ℕ → ℕ → ℕ → ℕ → EvRecord → EvRecord
loss_recorded su usable ticks seen expected rec =
    let rec' = record rec { last_loss_ratio = loss_ratio seen expected } in
    let lossy = record rec' {
      consecutive_loss_demote_windows = rec.consecutive_loss_demote_windows + 1;
    } in
    if expected == 0
    then rec
    else if ratio_lt su.cfg.loss_threshold (loss_ratio seen expected)
    then (if not (is_bad rec.state)
          && leb su.cfg.loss_demote_consecutive lossy.consecutive_loss_demote_windows
        then demoted su usable ticks true lossy
        else lossy)
    else if ratio_le (loss_ratio seen expected) (half su.cfg.loss_threshold)
    then record rec' { consecutive_loss_demote_windows = 0 }
    else rec'
