-- ===== src/Policy/Health.antt =====
-- srv6_mrc/policy.py with srv6_mrc/mrc/ev_state.py: a sender never sprays on an EV that its table
-- holds ASSUMED_BAD.
use srv6_mrc_emulator.Common.{
  ℕ, zero, suc, ◌<◌, ◌≡◌, List, [], ◌∷◌, arith, length, get_or, occurrences, Grid,
}
use srv6_mrc_emulator.Topo.Defs.{Shape}
use srv6_mrc_emulator.EvState.Defs.{EvState, TenantEvs}

-- The EV lies in the fabric, its spine is one of the flow's, and it has weight.
pub record IsChosen (sh : Shape) (w : Grid ℕ) (spines : List ℕ) (ev : ℕ × ℕ) : Type 0 where
  pub plane : ev.0 < sh.num_planes
  pub index : ℕ
  pub inside : index < length spines
  pub spine : ev.1 ≡ get_or spines index 0
  pub weight : 0 < w ev.0 ev.1

pub index-occurrences : (i : ℕ) (xs : List ℕ) → i < length xs → 0 < occurrences (get_or xs i 0) xs
index-occurrences i [] h = absurd (omega (arith, h))
index-occurrences zero (x ∷ xs) h = ground arith
index-occurrences (suc i) (x ∷ xs) h = ground (arith, index-occurrences i xs (omega (arith, h)))

-- The weights that a policy reads from a tenant's entry.
abbrev pub weights_read : TenantEvs → Grid ℕ
weights_read s p q = (s.weights p q).num
