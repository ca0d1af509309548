-- ===== src/EvState/Refinement.antt =====
-- srv6_mrc/mrc/ev_state.py: the steps under the lock are writes of the one record that the
-- specification gives.
use srv6_mrc_emulator.Common.{
  ℕ, ◌+◌, ◌≡◌, refl, inl, inr, sym, ◌≢◌, Bool, true, false, ltb, arith, Bool-cases,
}
use srv6_mrc_emulator.EvState.Defs.{
  EvState, good, assumed_bad, unknown, Ratio, zero_ratio, is_bad, same_state, EvRecord, TenantEvs,
  Setup, all_cells, commit, rebuild_weights, transition, transition_fields, usable_after,
  demote_fields, try_demote, window_sent, judge, evaluate, loss_window,
}
use srv6_mrc_emulator.EvState.Spec.{
  settle, demoted, judged, evaluated, loss_recorded, window_ratio, loss_ratio,
}

abbrev pub others : Setup → TenantEvs → ℕ → ℕ → ℕ
others su s plane path = usable_after (all_cells su) s.evs plane path

same_state_self : (x : EvState) → same_state x x ≡ true
same_state_self unknown = refl
same_state_self good = refl
same_state_self assumed_bad = refl

-- A write that keeps the state is a plain write.
settle_same :
    (su : Setup) (s : TenantEvs) (p q : ℕ) (rec : EvRecord)
    → settle su s p q rec.state rec ≡ commit s p q rec
unfolding settle
settle_same su s p q rec = rw (same_state_self rec.state)

transition-settle :
    (su : Setup) (s : TenantEvs) (p q : ℕ) (rec : EvRecord) (new_state : EvState)
    → same_state rec.state new_state ≡ false
    → transition su s p q rec new_state
      ≡ settle su s p q rec.state (transition_fields s.ticks new_state rec)
unfolding transition settle rebuild_weights transition_fields
transition-settle su s p q rec unknown h = rw h
transition-settle su s p q rec good h = ground arith
transition-settle su s p q rec assumed_bad h = rw h

demote_fields-state :
    (su : Setup) (s : TenantEvs) (p q : ℕ) (rec : EvRecord) (by_loss : Bool)
    → is_bad rec.state ≡ false
    → same_state (demote_fields su.cfg s.ticks by_loss rec).state assumed_bad ≡ false
unfolding demote_fields
demote_fields-state su s p q rec by_loss h = ground arith

try_demote-settle :
    (su : Setup) (s : TenantEvs) (p q : ℕ) (rec : EvRecord) (by_loss : Bool)
    → is_bad rec.state ≡ false
    → try_demote su s p q rec by_loss
      ≡ settle su s p q rec.state (demoted su (others su s p q) s.ticks by_loss rec)
unfolding try_demote demoted demote_fields
try_demote-settle su s p q rec by_loss h = elim (Bool-cases (ltb (others su s p q) su.min_active)) [
  | inl few ↦ rw (few) (
      sym (
        settle_same su s p q
          (record rec { demotes_suppressed_by_floor = rec.demotes_suppressed_by_floor + 1 })))
  | inr enough ↦ rw (enough) (
      transition-settle su s p q (demote_fields su.cfg s.ticks by_loss rec) assumed_bad
        (demote_fields-state su s p q rec by_loss h))
]

judge-settle :
    (su : Setup) (s : TenantEvs) (p q : ℕ) (rec : EvRecord) (sent : ℕ) (ratio : Ratio)
    → judge su s p q rec sent ratio
      ≡ settle su s p q rec.state (judged su (others su s p q) s.ticks rec sent ratio)
unfolding judge judged
judge-settle su s p q rec sent ratio =
    let unhealthy = record rec { consecutive_healthy_windows = 0 } in
    let healthy = record rec {
      consecutive_healthy_windows = rec.consecutive_healthy_windows + 1;
    } in
    ground (
      arith,
      settle_same su s p q unhealthy,
      settle_same su s p q healthy,
      try_demote-settle su s p q unhealthy false,
      transition-settle su s p q healthy good,
    )

pub evaluate-settle :
    (su : Setup) (s : TenantEvs) (p q : ℕ) (rec : EvRecord)
    → evaluate su s p q rec ≡ settle su s p q rec.state (evaluated su (others su s p q) s.ticks rec)
unfolding evaluate evaluated
evaluate-settle su s p q rec = ground (
  arith,
  settle_same su s p q (record rec { last_probe_ratio = zero_ratio }),
  judge-settle su s p q (record rec { last_probe_ratio = window_ratio rec }) (window_sent rec)
      (window_ratio rec),
)

pub loss_window-settle :
    (su : Setup) (s : TenantEvs) (p q seen expected : ℕ)
    → expected ≢ 0
    → loss_window su s p q seen expected
      ≡ settle su s p q
          (s.evs p q).state
          (loss_recorded su (others su s p q) s.ticks seen expected (s.evs p q))
unfolding loss_window loss_recorded
loss_window-settle su s p q seen expected h =
    let rec = record (s.evs p q) { last_loss_ratio = loss_ratio seen expected } in
    let lossy = record rec {
      consecutive_loss_demote_windows = rec.consecutive_loss_demote_windows + 1;
    } in
    let clean = record rec { consecutive_loss_demote_windows = 0 } in
    ground (
      arith,
      settle_same su s p q rec,
      settle_same su s p q lossy,
      settle_same su s p q clean,
      try_demote-settle su s p q lossy true,
    )
