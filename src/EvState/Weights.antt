-- ===== src/EvState/Weights.antt =====
-- srv6_mrc/mrc/ev_state.py: the spray weights that the policies read, against the states.
use mathlib.Core.Path.{fun_ext, ap₂}
use srv6_mrc_emulator.Common.{
  ℕ, suc, zero, ◌+◌, ◌≤◌, ◌<◌, ◌≡◌, refl, ◌∙◌, ap, inl, inr, true, List, [], ◌∷◌, arith, set_cell,
  same_cell→eq, Grid, sum_by, Bool-cases, foldl_inv,
}
use srv6_mrc_emulator.EvState.Defs.{
  EvState, same_state, state_weight, EvRecord, TenantEvs, Setup, all_cells, commit, weight_total,
  weights_of, rebuild_weights, rotate, tick_cell, tick, loss_window,
}
use srv6_mrc_emulator.EvState.Spec.{settle, evaluated, loss_recorded}
use srv6_mrc_emulator.EvState.Refinement.{others, evaluate-settle, loss_window-settle}
use srv6_mrc_emulator.EvState.Floor.{usable}

abbrev SameStates : Grid EvRecord → Grid EvRecord → Type 0
SameStates f g = (i j : ℕ) → (f i j).state ≡ (g i j).state

weight_total_cong :
    (cs : List (ℕ × ℕ)) (f g : Grid EvRecord)
    → SameStates f g
    → weight_total cs f ≡ weight_total cs g
unfolding weight_total
weight_total_cong [] f g h = refl
weight_total_cong (c ∷ cs) f g h =
    ap₂ (λ (a b : ℕ). a + b) (ap state_weight (h c.0 c.1)) (weight_total_cong cs f g h)

weights_of_cong :
    (su : Setup) (f g : Grid EvRecord) → SameStates f g → weights_of su f ≡ weights_of su g
unfolding weights_of
weights_of_cong su f g h =
    fun_ext (λ i. fun_ext (λ j. rw (weight_total_cong (all_cells su) f g h, h i j)))

-- The cache holds the weights of the present states.
abbrev pub IsCoherent : Setup → TenantEvs → Type 0
IsCoherent su s = s.weights ≡ weights_of su s.evs

set_cell-SameStates :
    (g : Grid EvRecord) (p q : ℕ) (rec : EvRecord)
    → (g p q).state ≡ rec.state
    → SameStates g (set_cell g p q rec)
set_cell-SameStates g p q rec h i j = ground (arith, same_cell→eq p q i j)

pub commit-IsCoherent :
    (su : Setup) (s : TenantEvs) (p q : ℕ) (rec : EvRecord)
    → (s.evs p q).state ≡ rec.state
    → IsCoherent su s
    → IsCoherent su (commit s p q rec)
commit-IsCoherent su s p q rec h k =
    k ∙ weights_of_cong su s.evs (set_cell s.evs p q rec) (set_cell-SameStates s.evs p q rec h)

same_state→eq : (a b : EvState) → same_state a b ≡ true → a ≡ b
same_state→eq a b h = ground arith

settle-IsCoherent :
    (su : Setup) (s : TenantEvs) (p q : ℕ) (rec : EvRecord)
    → IsCoherent su s
    → IsCoherent su (settle su s p q (s.evs p q).state rec)
unfolding settle rebuild_weights
settle-IsCoherent su s p q rec h = elim (Bool-cases (same_state (s.evs p q).state rec.state)) [
  | inl e ↦ rw e (commit-IsCoherent su s p q rec (same_state→eq _ _ e) h)
  | inr e ↦ rw e refl
]

tick_cell-IsCoherent :
    (su : Setup) (s : TenantEvs) (c : ℕ × ℕ) → IsCoherent su s → IsCoherent su (tick_cell su s c)
unfolding tick_cell rotate
tick_cell-IsCoherent su s (p, q) h =
    let rec = rotate su.cfg (s.evs p q) in
    rw (evaluate-settle su s p q rec)
      (settle-IsCoherent su s p q (evaluated su (others su s p q) s.ticks rec) h)

pub tick-IsCoherent : (su : Setup) (s : TenantEvs) → IsCoherent su s → IsCoherent su (tick su s)
unfolding tick
tick-IsCoherent su s h =
    foldl_inv (IsCoherent su) (tick_cell su) (tick_cell-IsCoherent su) (all_cells su)
      (record s { ticks = s.ticks + 1 }) h

pub loss_window-IsCoherent :
    (su : Setup) (s : TenantEvs) (p q seen expected : ℕ)
    → IsCoherent su s
    → IsCoherent su (loss_window su s p q seen expected)
loss_window-IsCoherent su s p q seen zero h = (unfold loss_window in h)
loss_window-IsCoherent su s p q seen (suc n) h =
    rw (loss_window-settle su s p q seen (suc n) (omega arith)) (
      settle-IsCoherent su s p q
        (loss_recorded su (others su s p q) s.ticks seen (suc n) (s.evs p q)) h)

pub weight_total-ge_usable :
    (cs : List (ℕ × ℕ)) (g : Grid EvRecord) → usable cs g ≤ weight_total cs g
unfolding usable weight_total state_weight
weight_total-ge_usable [] g = omega arith
weight_total-ge_usable (c ∷ cs) g = ground (arith, weight_total-ge_usable cs g)

-- With some EV usable the cache is the states' weights over their sum.
pub weights_of_lem :
    (su : Setup) (g : Grid EvRecord) (p q : ℕ)
    → 0 < usable (all_cells su) g
    → weights_of su g p q
      ≡ record { num = state_weight (g p q).state; den = weight_total (all_cells su) g }
unfolding weights_of
weights_of_lem su g p q h = ground (arith, weight_total-ge_usable (all_cells su) g)

pub weights_of_sum :
    (su : Setup) (cs : List (ℕ × ℕ)) (g : Grid EvRecord)
    → 0 < usable (all_cells su) g
    → sum_by (λ c. (weights_of su g c.0 c.1).num) cs ≡ weight_total cs g
unfolding weight_total
weights_of_sum su [] g h = refl
weights_of_sum su (c ∷ cs) g h =
    rw (weights_of_lem su g c.0 c.1 h)
      (ap (λ (n : ℕ). state_weight (g c.0 c.1).state + n) (weights_of_sum su cs g h))
