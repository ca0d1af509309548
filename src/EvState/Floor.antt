-- ===== src/EvState/Floor.antt =====
-- srv6_mrc/mrc/ev_state.py: the floor of usable EVs under demotions.
use srv6_mrc_emulator.Common.{
  ℕ, zero, suc, ◌+◌, ◌≤◌, ◌≡◌, ◌⊎◌, inl, inr, Bool, true, false, not, List, [], ◌∷◌, arith,
  set_cell, Grid, count_if, Bool-cases, foldl_inv,
}
use srv6_mrc_emulator.EvState.Defs.{
  EvState, is_bad, EvRecord, TenantEvs, Setup, all_cells, rebuild_weights, transition_fields,
  demote_fields, usable_after, Ratio, window_sent, tick, rotate, tick_cell, loss_window,
}
use srv6_mrc_emulator.EvState.Spec.{
  settle, demoted, judged, evaluated, loss_recorded, window_ratio, loss_ratio,
}
use srv6_mrc_emulator.EvState.Refinement.{others, evaluate-settle, loss_window-settle}

-- The EVs that are not ASSUMED_BAD.
unfoldable pub usable : List (ℕ × ℕ) → Grid EvRecord → ℕ
usable cs evs = count_if (λ c. not (is_bad (evs c.0 c.1).state)) cs

pub usable_after-le :
    (cs : List (ℕ × ℕ)) (g : Grid EvRecord) (p q : ℕ) (rec : EvRecord)
    → usable_after cs g p q ≤ usable cs (set_cell g p q rec)
unfolding usable_after usable
usable_after-le [] g p q rec = omega arith
usable_after-le (c ∷ cs) g p q rec = ground (arith, usable_after-le cs g p q rec)

pub usable_mono :
    (cs : List (ℕ × ℕ)) (g : Grid EvRecord) (p q : ℕ) (rec : EvRecord)
    → (is_bad rec.state ≡ true → is_bad (g p q).state ≡ true)
    → usable cs g ≤ usable cs (set_cell g p q rec)
unfolding usable
usable_mono [] g p q rec h = omega arith
usable_mono (c ∷ cs) g p q rec h = ground (arith, usable_mono cs g p q rec h)

pub settle-evs :
    (su : Setup) (s : TenantEvs) (p q : ℕ) (old : EvState) (rec : EvRecord)
    → (settle su s p q old rec).evs ≡ set_cell s.evs p q rec
unfolding settle rebuild_weights
settle-evs su s p q old rec = ground arith

abbrev pub KeepsFloor : Setup → TenantEvs → Type 0
KeepsFloor su s = su.min_active ≤ usable (all_cells su) s.evs

-- A write keeps the floor, unless it demotes below it.
settle-KeepsFloor :
    (su : Setup) (s : TenantEvs) (p q : ℕ) (old : EvState) (rec : EvRecord)
    → (is_bad rec.state ≡ true
        → (is_bad (s.evs p q).state ≡ true) ⊎ (su.min_active ≤ others su s p q))
    → KeepsFloor su s
    → KeepsFloor su (settle su s p q old rec)
settle-KeepsFloor su s p q old rec h floor =
    rw (settle-evs su s p q old rec) (elim (Bool-cases (is_bad rec.state)) [
      | inl bad ↦ elim (h bad) [
        | inl was ↦ omega (arith, usable_mono (all_cells su) s.evs p q rec (λ _. was))
        | inr room ↦ omega (arith, usable_after-le (all_cells su) s.evs p q rec)
      ]
      | inr fine ↦ omega (arith, usable_mono (all_cells su) s.evs p q rec (λ bad. cc))
    ])

abbrev FloorCheck : Setup → ℕ → EvRecord → EvRecord → Type 0
FloorCheck su n rec rec' =
    is_bad rec'.state ≡ true → (is_bad rec.state ≡ true) ⊎ (su.min_active ≤ n)

demoted-FloorCheck :
    (su : Setup) (n ticks : ℕ) (by_loss : Bool) (rec : EvRecord)
    → FloorCheck su n rec (demoted su n ticks by_loss rec)
unfolding demoted demote_fields transition_fields
demoted-FloorCheck su n ticks by_loss rec h = ground arith

judged-FloorCheck :
    (su : Setup) (n ticks : ℕ) (rec : EvRecord) (sent : ℕ) (ratio : Ratio)
    → FloorCheck su n rec (judged su n ticks rec sent ratio)
unfolding judged transition_fields
judged-FloorCheck su n ticks rec sent ratio h =
    ground
      (arith, demoted-FloorCheck su n ticks false (record rec { consecutive_healthy_windows = 0 }))

evaluated-FloorCheck :
    (su : Setup) (n ticks : ℕ) (rec : EvRecord) → FloorCheck su n rec (evaluated su n ticks rec)
unfolding evaluated
evaluated-FloorCheck su n ticks rec h = ground (
  arith,
  judged-FloorCheck su n ticks (record rec { last_probe_ratio = window_ratio rec })
      (window_sent rec) (window_ratio rec),
)

loss_recorded-FloorCheck :
    (su : Setup) (n ticks seen expected : ℕ) (rec : EvRecord)
    → FloorCheck su n rec (loss_recorded su n ticks seen expected rec)
unfolding loss_recorded
loss_recorded-FloorCheck su n ticks seen expected rec h = ground (
  arith,
  demoted-FloorCheck su n ticks true (record rec {
    last_loss_ratio = loss_ratio seen expected;
    consecutive_loss_demote_windows = rec.consecutive_loss_demote_windows + 1;
  }),
)

pub tick_cell-KeepsFloor :
    (su : Setup) (s : TenantEvs) (c : ℕ × ℕ) → KeepsFloor su s → KeepsFloor su (tick_cell su s c)
unfolding tick_cell rotate
tick_cell-KeepsFloor su s (p, q) h =
    let rec = rotate su.cfg (s.evs p q) in
    rw (evaluate-settle su s p q rec) (
      settle-KeepsFloor su s p q rec.state (evaluated su (others su s p q) s.ticks rec)
        (evaluated-FloorCheck su (others su s p q) s.ticks rec) h)

pub tick-KeepsFloor : (su : Setup) (s : TenantEvs) → KeepsFloor su s → KeepsFloor su (tick su s)
unfolding tick
tick-KeepsFloor su s h =
    foldl_inv (KeepsFloor su) (tick_cell su) (tick_cell-KeepsFloor su) (all_cells su)
      (record s { ticks = s.ticks + 1 }) h

pub loss_window-KeepsFloor :
    (su : Setup) (s : TenantEvs) (p q seen expected : ℕ)
    → KeepsFloor su s
    → KeepsFloor su (loss_window su s p q seen expected)
loss_window-KeepsFloor su s p q seen zero h = (unfold loss_window in h)
loss_window-KeepsFloor su s p q seen (suc n) h =
    let rec = s.evs p q in
    rw (loss_window-settle su s p q seen (suc n) (omega arith)) (
      settle-KeepsFloor su s p q rec.state
        (loss_recorded su (others su s p q) s.ticks seen (suc n) rec)
        (loss_recorded-FloorCheck su (others su s p q) s.ticks seen (suc n) rec) h)
