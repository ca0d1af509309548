-- ===== src/EvState/Tick.antt =====
-- srv6_mrc/mrc/ev_state.py: `tick` evaluates each EV of the tenant once.
use mathlib.Core.Path.{ap₂}
use srv6_mrc_emulator.Common.{
  ℕ, ◌+◌, ◌≤◌, ◌<◌, ◌≡◌, ◌≢◌, ◌↔◌, refl, sym, ◌∙◌, ap, inl, inr, false, List, [], ◌∷◌, arith,
  Bool-cases, foldl, visits, visits-cells, same_cell, same_cell→eq, set_cell, set_cell_self,
}
use srv6_mrc_emulator.EvState.Defs.{
  good, assumed_bad, EvStateConfig, EvRecord, TenantEvs, Setup, all_cells, rotate, tick_cell, tick,
  recover_hold,
}
use srv6_mrc_emulator.EvState.Spec.{evaluated}
use srv6_mrc_emulator.EvState.Refinement.{others, evaluate-settle}
use srv6_mrc_emulator.EvState.Floor.{settle-evs}
use srv6_mrc_emulator.EvState.Records.{settle-ticks}
use srv6_mrc_emulator.EvState.Verdicts.{
  IsFailing, IsHealthy, evaluated-demote_iff, evaluated-recover_iff,
}

tick_cell-evs :
    (su : Setup) (s : TenantEvs) (p q : ℕ)
    → (tick_cell su s (p, q)).evs
      ≡ set_cell s.evs p q (evaluated su (others su s p q) s.ticks (rotate su.cfg (s.evs p q)))
unfolding tick_cell
tick_cell-evs su s p q =
    let rec = rotate su.cfg (s.evs p q) in
    rw (evaluate-settle su s p q rec)
      (settle-evs su s p q rec.state (evaluated su (others su s p q) s.ticks rec))

tick_cell-ticks : (su : Setup) (s : TenantEvs) (p q : ℕ) → (tick_cell su s (p, q)).ticks ≡ s.ticks
unfolding tick_cell
tick_cell-ticks su s p q =
    let rec = rotate su.cfg (s.evs p q) in
    rw (evaluate-settle su s p q rec)
      (settle-ticks su s p q rec.state (evaluated su (others su s p q) s.ticks rec))

tick_cell-elsewhere :
    (su : Setup) (s : TenantEvs) (p q i j : ℕ)
    → same_cell i j p q ≡ false
    → (tick_cell su s (p, q)).evs i j ≡ s.evs i j
tick_cell-elsewhere su s p q i j h = rw (tick_cell-evs su s p q) (ground arith)

sweep-elsewhere :
    (su : Setup) (cs : List (ℕ × ℕ)) (s : TenantEvs) (i j : ℕ)
    → visits i j cs ≡ 0
    → (foldl (tick_cell su) s cs).evs i j ≡ s.evs i j
sweep-elsewhere su [] s i j h = refl
sweep-elsewhere su ((p, q) ∷ cs) s i j h =
    sweep-elsewhere su cs (tick_cell su s (p, q)) i j (ground arith)
    ∙ tick_cell-elsewhere su s p q i j (ground arith)

-- The sweep reaches the cell once: the state of the table at that moment, and what it does there.
pub record Visit (su : Setup) (cs : List (ℕ × ℕ)) (s : TenantEvs) (i j : ℕ) : Type 0 where
  pub before : List (ℕ × ℕ)
  pub untouched : (foldl (tick_cell su) s before).evs i j ≡ s.evs i j
  pub written :
      (foldl (tick_cell su) s cs).evs i j
      ≡ evaluated su
          (others su (foldl (tick_cell su) s before) i j)
          s.ticks
          (rotate su.cfg (s.evs i j))

sweep-Visit_here :
    (su : Setup) (cs : List (ℕ × ℕ)) (s : TenantEvs) (p q : ℕ)
    → visits p q cs ≡ 0
    → Visit su ((p, q) ∷ cs) s p q
sweep-Visit_here su cs s p q h = record {
  before = [];
  untouched = refl;
  written =
      sweep-elsewhere su cs (tick_cell su s (p, q)) p q h
      ∙ rw (tick_cell-evs su s p q) (
          set_cell_self s.evs p q
            (evaluated su (others su s p q) s.ticks (rotate su.cfg (s.evs p q))));
}

sweep-Visit :
    (su : Setup) (cs : List (ℕ × ℕ)) (s : TenantEvs) (i j : ℕ)
    → visits i j cs ≡ 1
    → Visit su cs s i j
sweep-Visit su [] s i j h = absurd (omega arith)
sweep-Visit su ((p, q) ∷ cs) s i j h = elim (Bool-cases (same_cell i j p q)) [
  | inl e ↦
      let (ei, ej) = same_cell→eq i j p q e in
      let rest : visits p q cs ≡ 0 = ground arith in rw (ei, ej) (sweep-Visit_here su cs s p q rest)
  | inr e ↦
      let s' = tick_cell su s (p, q) in
      let v = sweep-Visit su cs s' i j (ground arith) in
      let same : s'.evs i j ≡ s.evs i j = tick_cell-elsewhere su s p q i j e in
      record {
        before = (p, q) ∷ v.before;
        untouched = v.untouched ∙ same;
        written =
            v.written
            ∙ ap₂
                (λ (t : ℕ) (r : EvRecord).
                  evaluated su (others su (foldl (tick_cell su) s' v.before) i j) t
                    (rotate su.cfg r))
                (tick_cell-ticks su s p q) same;
      }
]

-- Each EV of the table is evaluated exactly once in a tick, on its rotated window, at the new tick
-- count, against the EVs that are usable when the sweep reaches it.
pub tick-Visit :
    (su : Setup) (s : TenantEvs) (p q : ℕ)
    → p < su.num_planes
    → q < su.num_paths
    → (n : ℕ) × ((tick su s).evs p q ≡ evaluated su n (s.ticks + 1) (rotate su.cfg (s.evs p q)))
unfolding tick
tick-Visit su s p q hp hq =
    let v =
      sweep-Visit su (all_cells su) (record s { ticks = s.ticks + 1 }) p q
        (visits-cells p q su.num_planes su.num_paths hp hq) in
    (others su (foldl (tick_cell su) (record s { ticks = s.ticks + 1 }) v.before) p q, v.written)

pub rotate-state : (cfg : EvStateConfig) (rec : EvRecord) → (rotate cfg rec).state ≡ rec.state
unfolding rotate
rotate-state cfg rec = refl

-- A tick demotes a usable EV of the table only if its window, with the bucket of this tick, is
-- failing; a window with too few probes, or with enough of them back, never does.
pub tick-demote :
    (su : Setup) (s : TenantEvs) (p q : ℕ)
    → p < su.num_planes
    → q < su.num_paths
    → (s.evs p q).state ≢ assumed_bad
    → ((tick su s).evs p q).state ≡ assumed_bad
    → IsFailing su.cfg (rotate su.cfg (s.evs p q))
tick-demote su s p q hp hq h bad =
    let (n, e) = tick-Visit su s p q hp hq in
    let rec = rotate su.cfg (s.evs p q) in
    let usable : rec.state ≢ assumed_bad = λ k. h (sym (rotate-state su.cfg (s.evs p q)) ∙ k) in
    let now : (evaluated su n (s.ticks + 1) rec).state ≡ assumed_bad =
      ap (λ r. r.state) (sym e) ∙ bad in
    ((evaluated-demote_iff su n (s.ticks + 1) rec usable).0 now).0

-- A tick returns an ASSUMED_BAD EV of the table to GOOD exactly when its window is healthy, no lossy
-- window has come since its demotion and it has been healthy for the whole hold.
pub tick-recover_iff :
    (su : Setup) (s : TenantEvs) (p q : ℕ)
    → p < su.num_planes
    → q < su.num_paths
    → (s.evs p q).state ≡ assumed_bad
    → (((tick su s).evs p q).state ≡ good) ↔ (
        IsHealthy su.cfg (rotate su.cfg (s.evs p q))
        × ((s.evs p q).consecutive_loss_demote_windows ≡ 0)
        × (recover_hold su.cfg (s.evs p q) ≤ (s.evs p q).consecutive_healthy_windows + 1))
tick-recover_iff su s p q hp hq bad =
    let (n, e) = tick-Visit su s p q hp hq in
    let rec = rotate su.cfg (s.evs p q) in
    let iff =
      evaluated-recover_iff su n (s.ticks + 1) rec (rotate-state su.cfg (s.evs p q) ∙ bad) in
    let streak : rec.consecutive_loss_demote_windows ≡ (s.evs p q).consecutive_loss_demote_windows =
      unfold rotate in refl in
    let healthy : rec.consecutive_healthy_windows ≡ (s.evs p q).consecutive_healthy_windows =
      unfold rotate in refl in
    let hold : recover_hold su.cfg rec ≡ recover_hold su.cfg (s.evs p q) =
      unfold rotate recover_hold in refl in
    (
      (λ k.
          let (a, b, c) = iff.0 (ap (λ r. r.state) (sym e) ∙ k) in
          (a, sym streak ∙ b, omega (arith, c, hold, healthy))),
      (λ k. ap (λ r. r.state) e ∙ iff.1 (k.0, streak ∙ k.1, omega (arith, k.2, hold, healthy))),
    )
