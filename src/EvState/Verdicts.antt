-- ===== src/EvState/Verdicts.antt =====
-- srv6_mrc/mrc/ev_state.py: exactly when a signal changes an EV's state.
use srv6_mrc_emulator.Common.{ℕ, ◌+◌, ◌-◌, ◌*◌, ◌≤◌, ◌<◌, ◌≡◌, ◌≢◌, ◌↔◌, min, arith}
use srv6_mrc_emulator.EvState.Defs.{
  good, assumed_bad, EvStateConfig, EvRecord, Setup, window_sent, window_recv, transition_fields,
  demote_fields, recover_hold,
}
use srv6_mrc_emulator.EvState.Spec.{demoted, judged, evaluated, loss_recorded}

-- The window has enough probes, and the share that came back is below `probe_fail_ratio`.
pub record IsFailing (cfg : EvStateConfig) (rec : EvRecord) : Type 0 where
  pub traffic : 0 < window_sent rec
  pub samples : cfg.probe_min_samples ≤ window_sent rec
  pub below :
      min (window_recv rec) (window_sent rec) * cfg.probe_fail_ratio.den
      < cfg.probe_fail_ratio.num * window_sent rec

-- The window has enough probes, and the share that came back is neither below `probe_fail_ratio`
-- nor below `probe_recover_ratio`.
pub record IsHealthy (cfg : EvStateConfig) (rec : EvRecord) : Type 0 where
  pub traffic : 0 < window_sent rec
  pub samples : cfg.probe_min_samples ≤ window_sent rec
  pub not_failing :
      cfg.probe_fail_ratio.num * window_sent rec
      ≤ min (window_recv rec) (window_sent rec) * cfg.probe_fail_ratio.den
  pub recovered :
      cfg.probe_recover_ratio.num * window_sent rec
      ≤ min (window_recv rec) (window_sent rec) * cfg.probe_recover_ratio.den

-- Probes demote a usable EV exactly when its window is failing and the other usable EVs reach the
-- floor.
pub evaluated-demote_iff :
    (su : Setup) (n ticks : ℕ) (rec : EvRecord)
    → rec.state ≢ assumed_bad
    → ((evaluated su n ticks rec).state ≡ assumed_bad)
      ↔ (IsFailing su.cfg rec × (su.min_active ≤ n))
unfolding evaluated judged demoted demote_fields transition_fields
evaluated-demote_iff su n ticks rec h = (λ e. ground arith, λ e. ground arith)

-- Probes return an ASSUMED_BAD EV to GOOD exactly when its window is healthy, no lossy window has
-- come since the demotion, and the healthy windows in a row reach the hold.
pub evaluated-recover_iff :
    (su : Setup) (n ticks : ℕ) (rec : EvRecord)
    → rec.state ≡ assumed_bad
    → ((evaluated su n ticks rec).state ≡ good) ↔ (
        IsHealthy su.cfg rec
        × (rec.consecutive_loss_demote_windows ≡ 0)
        × (recover_hold su.cfg rec ≤ rec.consecutive_healthy_windows + 1))
unfolding evaluated judged transition_fields recover_hold
evaluated-recover_iff su n ticks rec h = (λ e. ground arith, λ e. ground arith)

-- A loss report demotes a usable EV exactly when it is above the threshold, is the last of
-- `loss_demote_consecutive` such in a row, and the other usable EVs reach the floor.
pub loss_recorded-demote_iff :
    (su : Setup) (n ticks seen expected : ℕ) (rec : EvRecord)
    → rec.state ≢ assumed_bad
    → expected ≢ 0
    → ((loss_recorded su n ticks seen expected rec).state ≡ assumed_bad) ↔ (
        (su.cfg.loss_threshold.num * expected
          < (expected - min seen expected) * su.cfg.loss_threshold.den)
        × (su.cfg.loss_demote_consecutive ≤ rec.consecutive_loss_demote_windows + 1)
        × (su.min_active ≤ n))
unfolding loss_recorded demoted demote_fields transition_fields
loss_recorded-demote_iff su n ticks seen expected rec h k = (λ e. ground arith, λ e. ground arith)
