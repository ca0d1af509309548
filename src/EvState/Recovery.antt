-- ===== src/EvState/Recovery.antt =====
-- srv6_mrc/mrc/ev_state.py: an ASSUMED_BAD EV comes back after exactly its hold of healthy windows.
use srv6_mrc_emulator.Common.{ℕ, ◌≡◌, false, List, [], ◌∷◌, foldl, same_cell, All}
use srv6_mrc_emulator.EvState.Defs.{
  assumed_bad, EvStateConfig, EvRecord, TenantEvs, Setup, rotate, tick, recover_hold,
}
use srv6_mrc_emulator.EvState.Verdicts.{IsHealthy}
use srv6_mrc_emulator.EvState.Run.{Signal, sent_signal, recv_signal, tick_signal, loss_signal, run}

-- ASSUMED_BAD with `k` healthy windows in a row, of `hold` that it needs.
pub record IsWaiting (cfg : EvStateConfig) (hold k : ℕ) (rec : EvRecord) : Type 0 where
  pub bad : rec.state ≡ assumed_bad
  pub no_loss : rec.consecutive_loss_demote_windows ≡ 0
  pub healthy : rec.consecutive_healthy_windows ≡ k
  pub held : recover_hold cfg rec ≡ hold

-- A signal between two ticks that is no loss report on the EV.
abbrev pub IsQuiet : ℕ → ℕ → Signal → Type 0
IsQuiet p q (sent_signal i j) = Unit {0}
IsQuiet p q (recv_signal i j) = Unit {0}
IsQuiet p q tick_signal = ⊥
IsQuiet p q (loss_signal i j seen expected) = same_cell i j p q ≡ false

-- A round: the signals between two ticks, then a tick.
unfoldable pub round : Setup → TenantEvs → List Signal → TenantEvs
round su s sigs = tick su (run su s sigs)

unfoldable pub rounds : Setup → TenantEvs → List (List Signal) → TenantEvs
rounds su s rs = foldl (round su) s rs

-- In every round no loss report reaches the EV, and the window that the tick evaluates is healthy.
abbrev pub AllHealthy : Setup → ℕ → ℕ → TenantEvs → List (List Signal) → Type 0
AllHealthy su p q s [] = Unit {0}
AllHealthy su p q s (sigs ∷ rs) =
    All (IsQuiet p q) sigs
    × IsHealthy su.cfg (rotate su.cfg ((run su s sigs).evs p q))
    × AllHealthy su p q (round su s sigs) rs
