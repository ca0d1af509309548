-- ===== src/Scenario/Calls.antt =====
-- srv6_mrc/mrc/scenario.py: what a call gives, if anything, and which errors it may raise.
use srv6_mrc_emulator.Common.{
  ℕ, suc, ◌≡◌, refl, Bool, true, false, List, [], ◌∷◌, All, Result, ok, raise, if◌then◌else◌,
}
use srv6_mrc_emulator.Scenario.Outcome.{
  Place, Checked, done, scenario_error, wrong_value, wrong_type, need, at_place, of_result,
  each_from, ◌>>=◌,
}

-- The call returns a value with the property, or raises ScenarioError or TypeError; it does not raise a plain ValueError.
abbrev pub Gives : {A : Type 0} → (A → Type 0) → Checked A → Type 0
Gives P (done a) = P a
Gives P (scenario_error p) = Unit {0}
Gives P wrong_value = ⊥
Gives P wrong_type = Unit {0}

pub bind-Gives :
    {A B : Type 0} (Q : A → Type 0) (P : B → Type 0) (o : Checked A) (f : A → Checked B)
    → Gives Q o
    → ((a : A) → Q a → Gives P (f a))
    → Gives P (o >>= f)
bind-Gives Q P (done a) f h next = next a h
bind-Gives Q P (scenario_error p) f h next = tt
bind-Gives Q P wrong_value f h next = absurd h
bind-Gives Q P wrong_type f h next = tt

pub need-Gives : (b : Bool) (p : Place) → Gives (λ u. b ≡ true) (need b p)
need-Gives true p = refl
need-Gives false p = tt

pub test-Gives :
    {A : Type 0} (P : A → Type 0) (b : Bool) (p : Place) (a : A)
    → (b ≡ true → P a)
    → Gives P (if b then done a else scenario_error p)
test-Gives P true p a h = h refl
test-Gives P false p a h = tt

-- A call whose ValueError is caught.
pub at_place-Gives :
    {A : Type 0} (p : Place) (o : Checked A) → Gives (λ a. o ≡ done a) (at_place p o)
at_place-Gives p (done a) = refl
at_place-Gives p (scenario_error q) = tt
at_place-Gives p wrong_value = tt
at_place-Gives p wrong_type = tt

pub at_place-of_result-Gives :
    {A : Type 0} (p : Place) (r : Result A) → Gives (λ a. r ≡ ok a) (at_place p (of_result r))
at_place-of_result-Gives p (ok a) = refl
at_place-of_result-Gives p (raise e) = tt

-- What holds of every call's value holds of all the values of a list.
pub each_from-Gives :
    {A B : Type 0} (P : B → Type 0) (f : ℕ → A → Checked B)
    → ((i : ℕ) (x : A) → Gives P (f i x))
    → (i : ℕ) (xs : List A) → Gives (All P) (each_from i f xs)
unfolding each_from
each_from-Gives P f each i [] = tt
each_from-Gives P f each i (x ∷ xs) = bind-Gives P (All P) (f i x) _ (each i x) λ y here.
    bind-Gives (All P) (All P) (each_from (suc i) f xs) _ (each_from-Gives P f each (suc i) xs)
      λ ys rest. (here, rest)
