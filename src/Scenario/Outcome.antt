-- ===== src/Scenario/Outcome.antt =====
-- srv6_mrc/mrc/scenario.py: `ScenarioError` with its path, and the errors of what the checks call.
use Prim.Native.String.{String}
use srv6_mrc_emulator.Common.{ℕ, suc, Bool, true, false, List, [], ◌∷◌, Result, ok, raise}

-- A path from the document's root: ".name" or "[i]".
pub data Step : Type 0 where
  key : String → Step
  at : ℕ → Step

abbrev pub Place : Type 0
Place = List Step

-- A value, a ScenarioError at a place, a ValueError or a TypeError.
pub data Checked (A : Type 0) : Type 0 where
  done : A → Checked A
  scenario_error : Place → Checked A
  wrong_value : Checked A
  wrong_type : Checked A

infixl 5 ◌>>=◌
infixl 5 ◌>>◌
abbrev pub ◌>>=◌ : {A B : Type 0} → Checked A → (A → Checked B) → Checked B
done a >>= f = f a
scenario_error p >>= f = scenario_error p
wrong_value >>= f = wrong_value
wrong_type >>= f = wrong_type

abbrev pub ◌>>◌ : {A B : Type 0} → Checked A → Checked B → Checked B
o >> next = o >>= λ a. next

-- if not b: raise ScenarioError(p, ...)
abbrev pub need : Bool → Place → Checked (Unit {0})
need true p = done tt
need false p = scenario_error p

abbrev pub need_value : Bool → Checked (Unit {0})
need_value true = done tt
need_value false = wrong_value

-- except ValueError as e: raise ScenarioError(p, str(e))
abbrev pub at_place : {A : Type 0} → Place → Checked A → Checked A
at_place p (done a) = done a
at_place p (scenario_error q) = scenario_error q
at_place p wrong_value = scenario_error p
at_place p wrong_type = wrong_type

-- The netem functions raise ValueError alone.
abbrev pub of_result : {A : Type 0} → Result A → Checked A
of_result (ok a) = done a
of_result (raise e) = wrong_value

-- The calls for the items of a list, in order, with their index.
unfoldable pub each_from : {A B : Type 0} → ℕ → (ℕ → A → Checked B) → List A → Checked (List B)
each_from i f [] = done []
each_from i f (x ∷ xs) = do y ← f i x; ys ← each_from (suc i) f xs; done (y ∷ ys)
