-- ===== src/Runner/Retransmit.antt =====
-- srv6_mrc/runner.py: the EV of a retransmission.
use srv6_mrc_emulator.Common.{
  ℕ, zero, suc, ◌+◌, ◌≡◌, ◌≢◌, ◌⊎◌, ◌∙◌, sym, ap, true, false, List, [], ◌∷◌, Bool-cases, inl, inr,
  All, same_cell, same_cell→eq, same_cell_self, if◌then◌else◌,
}
use srv6_mrc_emulator.Runner.Plan.{Plan}
use srv6_mrc_emulator.Runner.Sender.{next_ev, other_ev, pick_other_ev}

module _ {P G : Type 0} (plan : Plan P G) where
  -- What the policy picks, one after the other, for the numbers from `seq + k` on.
  abbrev pub picks : ℕ → ℕ → P → ℕ → List (ℕ × ℕ)
  picks zero k policy seq = []
  picks (suc n) k policy seq =
      (next_ev plan policy (seq + k)).0 ∷ picks n (k + 1) (next_ev plan policy (seq + k)).1 seq

  cell_same : (ev avoid : ℕ × ℕ) → same_cell ev.0 ev.1 avoid.0 avoid.1 ≡ true → ev ≡ avoid
  cell_same (p, q) (i, j) h =
      let (first, second) = same_cell→eq p q i j h in λ t. (first t, second t)

  cell_differs : (ev avoid : ℕ × ℕ) → same_cell ev.0 ev.1 avoid.0 avoid.1 ≡ false → ev ≢ avoid
  cell_differs ev (i, j) h same =
      let clash : true ≡ false =
        sym (same_cell_self i j) ∙ sym (ap (λ e. same_cell e.0 e.1 i j) same) ∙ h in
      absurd cc

  one-avoids : (ev avoid : ℕ × ℕ) → (ev ≢ avoid) ⊎ ((ev ≡ avoid) × Unit {0})
  one-avoids ev avoid = elim (Bool-cases (same_cell ev.0 ev.1 avoid.0 avoid.1)) [
    | inl e ↦ inr (cell_same ev avoid e, tt)
    | inr e ↦ inl (cell_differs ev avoid e)
  ]

  step-avoids :
      (ev avoid : ℕ × ℕ) (policy : P) (rest : (ℕ × ℕ) × P) (Q : Type 0)
      → (rest.0 ≢ avoid) ⊎ Q
      → ((if same_cell ev.0 ev.1 avoid.0 avoid.1 then rest else (ev, policy)).0 ≢ avoid)
        ⊎ ((ev ≡ avoid) × Q)
  step-avoids ev avoid policy rest Q h = elim (Bool-cases (same_cell ev.0 ev.1 avoid.0 avoid.1)) [
    | inl e ↦ rw e (elim h [ inl other ↦ inl other | inr all ↦ inr (cell_same ev avoid e, all) ])
    | inr e ↦ rw e (inl (cell_differs ev avoid e))
  ]

  other_ev-avoids :
      (n k : ℕ) (policy : P) (seq : ℕ) (avoid : ℕ × ℕ)
      → ((other_ev plan n k policy seq avoid).0 ≢ avoid)
        ⊎ All (λ ev. ev ≡ avoid) (picks (suc n) k policy seq)
  unfolding other_ev
  other_ev-avoids zero k policy seq avoid = one-avoids (next_ev plan policy (seq + k)).0 avoid
  other_ev-avoids (suc n) k policy seq avoid =
      let (ev, policy') = next_ev plan policy (seq + k) in
      step-avoids ev avoid policy' (other_ev plan n (k + 1) policy' seq avoid) _
        (other_ev-avoids n (k + 1) policy' seq avoid)

-- A retransmission takes another EV than the one that trimmed the packet, unless the policy picks that EV for all of the
-- eight numbers after the packet's.
pub pick_other_ev-avoids :
    {P G : Type 0} (plan : Plan P G) (policy : P) (seq : ℕ) (avoid : ℕ × ℕ)
    → ((pick_other_ev plan policy seq avoid).0 ≢ avoid)
      ⊎ All (λ ev. ev ≡ avoid) (picks plan 8 1 policy seq)
unfolding pick_other_ev
pick_other_ev-avoids plan policy seq avoid = other_ev-avoids plan 7 1 policy seq avoid
