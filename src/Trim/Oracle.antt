-- ===== src/Trim/Oracle.antt =====
-- srv6_mrc/trim.py: the oracle's draws for a sequence of packets.
use srv6_mrc_emulator.Common.{
  ℕ, ◌≡◌, ap, refl, inl, inr, Bool, true, false, not, ◌||◌, List, [], ◌∷◌, ◌==◌, if◌then◌else◌,
  arith, Bool-cases,
}
use srv6_mrc_emulator.EvState.Defs.{Ratio, ratio_lt}
use srv6_mrc_emulator.Trim.Defs.{TrimSpec, matches, hits}

module _ {ℓ} {G : Type ℓ} (random : G → Ratio × G) (spec : TrimSpec) where
  -- The answers for a sequence of packets, each by its EV.
  unfoldable pub answers : G → List (ℕ × ℕ) → List Bool
  answers rng [] = []
  answers rng ((plane, path) ∷ evs) =
      let (hit, rng') = hits random spec rng plane path in hit ∷ answers rng' evs

  abbrev pub matching : List (ℕ × ℕ) → List (ℕ × ℕ)
  matching [] = []
  matching ((plane, path) ∷ evs) =
      if matches spec plane path then (plane, path) ∷ matching evs else matching evs

  -- The answers that belong to packets on matching EVs.
  abbrev pub matching_answers : List (ℕ × ℕ) → List Bool → List Bool
  matching_answers ((plane, path) ∷ evs) (hit ∷ hs) =
      if matches spec plane path then hit ∷ matching_answers evs hs else matching_answers evs hs
  matching_answers _ _ = []

  -- Packets on other EVs draw nothing: which packets of the chosen EVs are trimmed does not depend on
  -- what else is sent between them.
  pub answers-matching :
      (rng : G) (evs : List (ℕ × ℕ))
      → matching_answers evs (answers rng evs) ≡ answers rng (matching evs)
  unfolding answers hits
  answers-matching rng [] = refl
  answers-matching rng ((plane, path) ∷ evs) = elim (Bool-cases (matches spec plane path)) [
    | inl yes_it ↦ elim (Bool-cases (spec.rate.num == 0)) [
      | inl never ↦ rw (yes_it, never) (ap (◌∷◌ false) (answers-matching rng evs))
      | inr sometimes ↦
          rw (yes_it, sometimes, yes_it)
            (ap (◌∷◌ (ratio_lt (random rng).0 spec.rate)) (answers-matching (random rng).1 evs))
    ]
    | inr no_it ↦
        let quiet : ((spec.rate.num == 0) || not (matches spec plane path)) ≡ true = ground arith in
        rw (quiet, no_it) (answers-matching rng evs)
  ]
