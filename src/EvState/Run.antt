-- ===== src/EvState/Run.antt =====
-- srv6_mrc/mrc/ev_state.py: a tenant's table under any sequence of signals.
use srv6_mrc_emulator.Common.{
  ℕ, suc, ◌*◌, ◌≤◌, ◌≡◌, refl, ap, Bool, List, [], ◌∷◌, ltb, if◌then◌else◌, ◌&&◌, arith, foldl,
  foldl_inv, cells, length-cells, if_elim, length,
}
use srv6_mrc_emulator.EvState.Defs.{
  EvStateConfig, EvRecord, new_record, TenantEvs, Setup, all_cells, commit, rebuild_weights, tick,
  loss_window, probe_sent, probe_recv, resolve_min_active,
}
use srv6_mrc_emulator.EvState.Table.{new_tenant, make_setup}
use srv6_mrc_emulator.EvState.Floor.{
  usable, usable_mono, KeepsFloor, tick-KeepsFloor, loss_window-KeepsFloor,
}
use srv6_mrc_emulator.EvState.Weights.{
  IsCoherent, commit-IsCoherent, tick-IsCoherent, loss_window-IsCoherent,
}
use srv6_mrc_emulator.EvState.Records.{
  IsRecord, AllRecords, tick-AllRecords, loss_window-AllRecords, probe_sent-AllRecords,
  probe_recv-AllRecords,
}

-- The calls that change a tenant's entries.
pub data Signal : Type 0 where
  sent_signal : ℕ → ℕ → Signal
  recv_signal : ℕ → ℕ → Signal
  tick_signal : Signal
  loss_signal : ℕ → ℕ → ℕ → ℕ → Signal

-- `_check_ev`: a signal for an EV outside the table raises, and changes nothing.
abbrev pub in_table : Setup → ℕ → ℕ → Bool
in_table su plane path = ltb plane su.num_planes && ltb path su.num_paths

unfoldable pub apply_signal : Setup → TenantEvs → Signal → TenantEvs
apply_signal su s (sent_signal p q) = if in_table su p q then probe_sent s p q else s
apply_signal su s (recv_signal p q) = if in_table su p q then probe_recv s p q else s
apply_signal su s tick_signal = tick su s
apply_signal su s (loss_signal p q seen expected) =
    if in_table su p q then loss_window su s p q seen expected else s

unfoldable pub run : Setup → TenantEvs → List Signal → TenantEvs
unfolding apply_signal
run su s sigs = foldl (apply_signal su) s sigs

pub record Inv (su : Setup) (s : TenantEvs) : Type 0 where
  pub floor : KeepsFloor su s
  pub coherent : IsCoherent su s
  pub records : AllRecords su s

commit-KeepsFloor :
    (su : Setup) (s : TenantEvs) (p q : ℕ) (rec : EvRecord)
    → (s.evs p q).state ≡ rec.state
    → KeepsFloor su s
    → KeepsFloor su (commit s p q rec)
commit-KeepsFloor su s p q rec e h =
    omega (arith, usable_mono (all_cells su) s.evs p q rec (λ bad. rw e bad))

probe_sent-Inv : (su : Setup) (s : TenantEvs) (p q : ℕ) → Inv su s → Inv su (probe_sent s p q)
unfolding probe_sent
probe_sent-Inv su s p q h = record {
  floor = commit-KeepsFloor su s p q _ refl h.floor;
  coherent = commit-IsCoherent su s p q _ refl h.coherent;
  records = probe_sent-AllRecords su s p q h.records;
}

probe_recv-Inv : (su : Setup) (s : TenantEvs) (p q : ℕ) → Inv su s → Inv su (probe_recv s p q)
unfolding probe_recv
probe_recv-Inv su s p q h = record {
  floor = commit-KeepsFloor su s p q _ refl h.floor;
  coherent = commit-IsCoherent su s p q _ refl h.coherent;
  records = probe_recv-AllRecords su s p q h.records;
}

tick-Inv : (su : Setup) (s : TenantEvs) → Inv su s → Inv su (tick su s)
tick-Inv su s h = record {
  floor = tick-KeepsFloor su s h.floor;
  coherent = tick-IsCoherent su s h.coherent;
  records = tick-AllRecords su s h.records;
}

loss_window-Inv :
    (su : Setup) (s : TenantEvs) (p q seen expected : ℕ)
    → Inv su s
    → Inv su (loss_window su s p q seen expected)
loss_window-Inv su s p q seen expected h = record {
  floor = loss_window-KeepsFloor su s p q seen expected h.floor;
  coherent = loss_window-IsCoherent su s p q seen expected h.coherent;
  records = loss_window-AllRecords su s p q seen expected h.records;
}

pub apply_signal-Inv :
    (su : Setup) (s : TenantEvs) (sig : Signal) → Inv su s → Inv su (apply_signal su s sig)
unfolding apply_signal
apply_signal-Inv su s (sent_signal p q) h =
    if_elim (Inv su) (in_table su p q) (probe_sent-Inv su s p q h) h
apply_signal-Inv su s (recv_signal p q) h =
    if_elim (Inv su) (in_table su p q) (probe_recv-Inv su s p q h) h
apply_signal-Inv su s tick_signal h = tick-Inv su s h
apply_signal-Inv su s (loss_signal p q seen expected) h =
    if_elim (Inv su) (in_table su p q) (loss_window-Inv su s p q seen expected h) h

usable_new : (cs : List (ℕ × ℕ)) → usable cs (λ p q. new_record) ≡ length cs
unfolding usable
usable_new [] = refl
usable_new (c ∷ cs) = ap suc (usable_new cs)

-- The floor is never above the number of EVs.
pub resolve_min_active-le :
    (cfg : EvStateConfig) (n m : ℕ)
    → 1 ≤ n
    → 1 ≤ m
    → (1 ≤ resolve_min_active cfg n m) × (resolve_min_active cfg n m ≤ n * m)
unfolding resolve_min_active
resolve_min_active-le cfg n m hn hm = let h : 1 ≤ n * m = grind arith in ground arith

new_tenant-Inv :
    (cfg : EvStateConfig) (n m : ℕ)
    → 1 ≤ n
    → 1 ≤ m
    → Inv (make_setup cfg n m) (new_tenant (make_setup cfg n m))
unfolding new_tenant rebuild_weights
new_tenant-Inv cfg n m hn hm = record {
  floor =
      omega (arith, usable_new (cells n m), length-cells n m, resolve_min_active-le cfg n m hn hm);
  coherent = refl;
  records = λ i j. new_record-IsRecord cfg;
}
  where
    new_record-IsRecord : (cfg : EvStateConfig) → IsRecord cfg 0 new_record
    new_record-IsRecord cfg = ground arith

abbrev pub reached : EvStateConfig → ℕ → ℕ → List Signal → TenantEvs
reached cfg n m sigs = run (make_setup cfg n m) (new_tenant (make_setup cfg n m)) sigs

-- Every state that signals lead to from a new table satisfies the invariant.
pub run-Inv :
    (cfg : EvStateConfig) (n m : ℕ) (sigs : List Signal)
    → 1 ≤ n
    → 1 ≤ m
    → Inv (make_setup cfg n m) (reached cfg n m sigs)
unfolding run
run-Inv cfg n m sigs hn hm =
    let su = make_setup cfg n m in
    foldl_inv (Inv su) (apply_signal su) (apply_signal-Inv su) sigs (new_tenant su)
      (new_tenant-Inv cfg n m hn hm)

-- After any signals each EV's record is consistent: its backoff level is at most the configured
-- one, its window has at most `probe_window_ticks` buckets, the probes of the window and of the
-- bucket in progress are among those counted in total, an EV marked as demoted by loss is
-- ASSUMED_BAD, and the tick of its last recovery is not in the future.
pub run-IsRecord :
    (cfg : EvStateConfig) (n m : ℕ) (sigs : List Signal) (p q : ℕ)
    → 1 ≤ n
    → 1 ≤ m
    → IsRecord cfg (reached cfg n m sigs).ticks ((reached cfg n m sigs).evs p q)
run-IsRecord cfg n m sigs p q hn hm = (run-Inv cfg n m sigs hn hm).records p q

-- Whatever probes, ticks and loss reports a tenant's table receives from its construction on, at
-- least `min_active` EVs (and at least one) are not ASSUMED_BAD.
pub usable-run_floor :
    (cfg : EvStateConfig) (n m : ℕ) (sigs : List Signal)
    → 1 ≤ n
    → 1 ≤ m
    → (resolve_min_active cfg n m ≤ usable (cells n m) (reached cfg n m sigs).evs)
      × (1 ≤ usable (cells n m) (reached cfg n m sigs).evs)
usable-run_floor cfg n m sigs hn hm =
    omega (arith, (run-Inv cfg n m sigs hn hm).floor, resolve_min_active-le cfg n m hn hm)
