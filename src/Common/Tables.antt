-- ===== src/Common/Tables.antt =====
-- A Boolean test that holds of every number below a bound, as a table that evaluation checks.
use Prim.Native.Nat.{ℕ, zero, suc, ◌<◌}
use mathlib.Core.Path.{◌≡◌, refl, sym, subst}
use mathlib.Core.Logic.{◌⊎◌, inl, inr}
use mathlib.Core.Bool.{Bool, true, false, ◌&&◌}
use native.Mathlib.Omega.{arith}

unfoldable pub all_below : (ℕ → Bool) → ℕ → Bool
all_below test zero = true
all_below test (suc n) = test n && all_below test n

pub and_true : (a b : Bool) → (a && b) ≡ true → (a ≡ true) × (b ≡ true)
and_true true b h = (refl, h)
and_true false b h = cc

last_or_below : (i k : ℕ) → i < suc k → (i ≡ k) ⊎ (i < k)
last_or_below i k h = ground arith

pub all_below-entry : (test : ℕ → Bool) (k i : ℕ) → all_below test k ≡ true → i < k → test i ≡ true
unfolding all_below
all_below-entry test zero i e h = absurd (omega (arith, h))
all_below-entry test (suc k) i e h =
    let (here, below) = and_true (test k) (all_below test k) e in
    elim (last_or_below i k h) [
      | inl same ↦ subst (λ j. test j ≡ true) (sym same) here
      | inr less ↦ all_below-entry test k i below less
    ]
