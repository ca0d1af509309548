-- ===== src/EvState/Records.antt =====
-- srv6_mrc/mrc/ev_state.py: what holds of every EV record between two signals.
use srv6_mrc_emulator.Common.{
  ℕ, suc, zero, ◌+◌, ◌-◌, ◌≤◌, ◌≡◌, Bool, true, false, not, ◌||◌, List, [], ◌∷◌, ◌++◌, Option, none,
  some, arith, sum_by, foldl_inv, length, push_bounded, length-push_bounded, drop, set_cell_all,
}
use srv6_mrc_emulator.EvState.Defs.{
  EvState, good, is_bad, EvStateConfig, EvRecord, Ratio, TenantEvs, Setup, all_cells, window_sent,
  window_recv, rotate, tick_cell, tick, loss_window, probe_sent, probe_recv, rebuild_weights,
  transition_fields, demote_fields, next_level,
}
use srv6_mrc_emulator.EvState.Spec.{
  settle, demoted, judged, evaluated, loss_recorded, window_ratio, loss_ratio,
}
use srv6_mrc_emulator.EvState.Refinement.{others, evaluate-settle, loss_window-settle}
use srv6_mrc_emulator.EvState.Floor.{settle-evs}

abbrev pub IsPast : ℕ → Option ℕ → Type 0
IsPast ticks none = Unit {0}
IsPast ticks (some l) = l ≤ ticks

pub record IsRecord (cfg : EvStateConfig) (ticks : ℕ) (rec : EvRecord) : Type 0 where
  pub level_capped : rec.loss_backoff_level ≤ cfg.loss_backoff_max_level
  pub window_bounded : length rec.buckets ≤ cfg.probe_window_ticks
  pub window_in_total : window_sent rec + rec.current_sent ≤ rec.total_sent
  pub recv_in_total : window_recv rec + rec.current_recv ≤ rec.total_recv
  pub loss_demoted_bad : (not rec.loss_demoted || is_bad rec.state) ≡ true
  pub recover_past : IsPast ticks rec.last_loss_recover_tick

next_level-le :
    (cfg : EvStateConfig) (ticks : ℕ) (rec : EvRecord)
    → next_level cfg ticks rec ≤ cfg.loss_backoff_max_level
unfolding next_level
next_level-le cfg ticks rec = ground arith

demoted-IsRecord :
    (su : Setup) (n ticks : ℕ) (by_loss : Bool) (rec : EvRecord)
    → IsRecord su.cfg ticks rec
    → IsRecord su.cfg ticks (demoted su n ticks by_loss rec)
unfolding demoted demote_fields transition_fields
demoted-IsRecord su n ticks by_loss rec h = ground (arith, next_level-le su.cfg ticks rec)

promoted-IsRecord :
    (cfg : EvStateConfig) (ticks : ℕ) (rec : EvRecord)
    → IsRecord cfg ticks rec
    → IsRecord cfg ticks (transition_fields ticks good rec)
unfolding transition_fields
promoted-IsRecord cfg ticks rec h = ground arith

judged-IsRecord :
    (su : Setup) (n ticks : ℕ) (rec : EvRecord) (sent : ℕ) (ratio : Ratio)
    → IsRecord su.cfg ticks rec
    → IsRecord su.cfg ticks (judged su n ticks rec sent ratio)
unfolding judged
judged-IsRecord su n ticks rec sent ratio h =
    let unhealthy = record rec { consecutive_healthy_windows = 0 } in
    let healthy = record rec {
      consecutive_healthy_windows = rec.consecutive_healthy_windows + 1;
    } in
    let a : IsRecord su.cfg ticks unhealthy = ground arith in
    let b : IsRecord su.cfg ticks healthy = ground arith in
    grind (
      arith,
      demoted-IsRecord su n ticks false unhealthy a,
      promoted-IsRecord su.cfg ticks healthy b,
    )

evaluated-IsRecord :
    (su : Setup) (n ticks : ℕ) (rec : EvRecord)
    → IsRecord su.cfg ticks rec
    → IsRecord su.cfg ticks (evaluated su n ticks rec)
unfolding evaluated
evaluated-IsRecord su n ticks rec h =
    let noted = record rec { last_probe_ratio = window_ratio rec } in
    let a : IsRecord su.cfg ticks noted = ground arith in
    grind (arith, judged-IsRecord su n ticks noted (window_sent rec) (window_ratio rec) a)

loss_recorded-IsRecord :
    (su : Setup) (n ticks seen expected : ℕ) (rec : EvRecord)
    → IsRecord su.cfg ticks rec
    → IsRecord su.cfg ticks (loss_recorded su n ticks seen expected rec)
unfolding loss_recorded
loss_recorded-IsRecord su n ticks seen expected rec h =
    let lossy = record rec {
      last_loss_ratio = loss_ratio seen expected;
      consecutive_loss_demote_windows = rec.consecutive_loss_demote_windows + 1;
    } in
    let a : IsRecord su.cfg ticks lossy = ground arith in
    grind (arith, demoted-IsRecord su n ticks true lossy a)

sum_by-drop-le {ℓ} :
    {A : Type ℓ} (f : A → ℕ) (n : ℕ) (xs : List A) → sum_by f (drop n xs) ≤ sum_by f xs
sum_by-drop-le f zero xs = omega arith
sum_by-drop-le f (suc n) [] = omega arith
sum_by-drop-le f (suc n) (x ∷ xs) = omega (arith, sum_by-drop-le f n xs)

sum_by-snoc {ℓ} :
    {A : Type ℓ} (f : A → ℕ) (xs : List A) (x : A) → sum_by f (xs ++ x ∷ []) ≡ sum_by f xs + f x
sum_by-snoc f [] x = omega arith
sum_by-snoc f (y ∷ xs) x = omega (arith, sum_by-snoc f xs x)

sum_by-push-le {ℓ} :
    {A : Type ℓ} (f : A → ℕ) (cap : ℕ) (xs : List A) (x : A)
    → sum_by f (push_bounded cap xs x) ≤ sum_by f xs + f x
sum_by-push-le f cap xs x =
    omega (arith, sum_by-drop-le f (length (xs ++ x ∷ []) - cap) (xs ++ x ∷ []), sum_by-snoc f xs x)

rotate-IsRecord :
    (cfg : EvStateConfig) (ticks : ℕ) (rec : EvRecord)
    → IsRecord cfg ticks rec
    → IsRecord cfg ticks (rotate cfg rec)
unfolding rotate
rotate-IsRecord cfg ticks rec h =
    let b : ℕ × ℕ = (rec.current_sent, rec.current_recv) in
    record {
      level_capped = h.level_capped;
      window_bounded = omega (arith, length-push_bounded cfg.probe_window_ticks rec.buckets b);
      window_in_total = omega (
        arith,
        h.window_in_total,
        sum_by-push-le (λ b. b.0) cfg.probe_window_ticks rec.buckets b,
      );
      recv_in_total =
          omega (
            arith,
            h.recv_in_total,
            sum_by-push-le (λ b. b.1) cfg.probe_window_ticks rec.buckets b,
          );
      loss_demoted_bad = h.loss_demoted_bad;
      recover_past = h.recover_past;
    }

later-IsRecord :
    (cfg : EvStateConfig) (ticks : ℕ) (rec : EvRecord)
    → IsRecord cfg ticks rec
    → IsRecord cfg (ticks + 1) rec
later-IsRecord cfg ticks rec h = ground arith

abbrev pub AllRecords : Setup → TenantEvs → Type 0
AllRecords su s = (i j : ℕ) → IsRecord su.cfg s.ticks (s.evs i j)

pub settle-ticks :
    (su : Setup) (s : TenantEvs) (p q : ℕ) (old : EvState) (rec : EvRecord)
    → (settle su s p q old rec).ticks ≡ s.ticks
unfolding settle rebuild_weights
settle-ticks su s p q old rec = ground arith

settle-AllRecords :
    (su : Setup) (s : TenantEvs) (p q : ℕ) (old : EvState) (rec : EvRecord)
    → AllRecords su s
    → IsRecord su.cfg s.ticks rec
    → AllRecords su (settle su s p q old rec)
settle-AllRecords su s p q old rec h k i j =
    rw (settle-ticks su s p q old rec, settle-evs su s p q old rec)
      (set_cell_all (IsRecord su.cfg s.ticks) s.evs p q rec h k i j)

tick_cell-AllRecords :
    (su : Setup) (s : TenantEvs) (c : ℕ × ℕ) → AllRecords su s → AllRecords su (tick_cell su s c)
unfolding tick_cell
tick_cell-AllRecords su s (p, q) h =
    let rec = rotate su.cfg (s.evs p q) in
    rw (evaluate-settle su s p q rec) (
      settle-AllRecords su s p q rec.state (evaluated su (others su s p q) s.ticks rec) h (
        evaluated-IsRecord su (others su s p q) s.ticks rec
          (rotate-IsRecord su.cfg s.ticks (s.evs p q) (h p q))))

pub tick-AllRecords : (su : Setup) (s : TenantEvs) → AllRecords su s → AllRecords su (tick su s)
unfolding tick
tick-AllRecords su s h =
    foldl_inv (AllRecords su) (tick_cell su) (tick_cell-AllRecords su) (all_cells su)
      (record s { ticks = s.ticks + 1 }) (λ i j. later-IsRecord su.cfg s.ticks (s.evs i j) (h i j))

pub loss_window-AllRecords :
    (su : Setup) (s : TenantEvs) (p q seen expected : ℕ)
    → AllRecords su s
    → AllRecords su (loss_window su s p q seen expected)
loss_window-AllRecords su s p q seen zero h = (unfold loss_window in h)
loss_window-AllRecords su s p q seen (suc n) h =
    rw (loss_window-settle su s p q seen (suc n) (omega arith)) (
      settle-AllRecords su s p q (s.evs p q).state
        (loss_recorded su (others su s p q) s.ticks seen (suc n) (s.evs p q)) h
        (loss_recorded-IsRecord su (others su s p q) s.ticks seen (suc n) (s.evs p q) (h p q)))

pub probe_sent-AllRecords :
    (su : Setup) (s : TenantEvs) (p q : ℕ) → AllRecords su s → AllRecords su (probe_sent s p q)
unfolding probe_sent
probe_sent-AllRecords su s p q h i j =
    set_cell_all (IsRecord su.cfg s.ticks) s.evs p q _ h (bumped (s.evs p q) (h p q)) i j
  where
    bumped :
        (rec : EvRecord)
        → IsRecord su.cfg s.ticks rec
        → IsRecord su.cfg s.ticks
            (record rec { current_sent = rec.current_sent + 1; total_sent = rec.total_sent + 1 })
    bumped rec h = ground arith

pub probe_recv-AllRecords :
    (su : Setup) (s : TenantEvs) (p q : ℕ) → AllRecords su s → AllRecords su (probe_recv s p q)
unfolding probe_recv
probe_recv-AllRecords su s p q h i j =
    set_cell_all (IsRecord su.cfg s.ticks) s.evs p q _ h (bumped (s.evs p q) (h p q)) i j
  where
    bumped :
        (rec : EvRecord)
        → IsRecord su.cfg s.ticks rec
        → IsRecord su.cfg s.ticks
            (record rec { current_recv = rec.current_recv + 1; total_recv = rec.total_recv + 1 })
    bumped rec h = ground arith
