-- ===== src/Scenario/EnvFields.antt =====
-- srv6_mrc/mrc/scenario.py: what the object that `to_env_json` writes has under each name.
use Prim.Native.String.{String}
use mathlib.Core.Logic.{ite}
use srv6_mrc_emulator.Common.{
  ℕ, ◌≡◌, refl, ap, ◌∙◌, Bool, true, false, ◌&&◌, ◌||◌, List, [], ◌∷◌, Option, none, some, ltb,
  lt→ltb, string_discrete, and_true,
}
use srv6_mrc_emulator.Common.Dict.{find}
use srv6_mrc_emulator.Topo.Addresses.{contains}
use srv6_mrc_emulator.EvState.Defs.{Ratio}
use srv6_mrc_emulator.Scenario.Outcome.{Checked, done, ◌>>=◌}
use srv6_mrc_emulator.Scenario.Value.{Value, get, all_known}
use srv6_mrc_emulator.Scenario.Mrc.{
  int_value, ratio_value, present, int_or, option_int, ratio_or, ev_state_fields, has_ev_values,
}
use srv6_mrc_emulator.Scenario.MrcValues.{IsFrom}

abbrev pub Fields : Type 0
Fields = List (String × Option Value)

abbrev or_else : Option Value → Option Value → Option Value
or_else none o = o
or_else (some v) o = some v

-- What the object has under a name.
abbrev lookup : String → Fields → Option Value
lookup k [] = none
lookup k ((j, o) ∷ fs) = ite (string_discrete j k) (or_else o (lookup k fs)) (lookup k fs)

pub get-present : (k : String) (fs : Fields) → get k (present fs) ≡ lookup k fs
unfolding find present
get-present k [] = refl
get-present k ((j, none) ∷ fs) =
    elim (string_discrete j k) as (λ d. get k (present fs) ≡ ite d (lookup k fs) (lookup k fs)) [
      | yes same ↦ get-present k fs
      | no other ↦ get-present k fs
    ]
get-present k ((j, some v) ∷ fs) =
    elim (string_discrete j k)
      as (λ d. ite d (some v) (get k (present fs)) ≡ ite d (some v) (lookup k fs)) [
        | yes same ↦ refl
        | no other ↦ get-present k fs
      ]

abbrev names_known : List String → Fields → Bool
names_known allowed [] = true
names_known allowed ((k, o) ∷ fs) = contains k allowed && names_known allowed fs

pub all_known-present :
    (allowed : List String) (fs : Fields)
    → names_known allowed fs ≡ true
    → all_known allowed (present fs) ≡ true
unfolding all_known present
all_known-present allowed [] h = refl
all_known-present allowed ((k, none) ∷ fs) h =
    all_known-present allowed fs (and_true (contains k allowed) (names_known allowed fs) h).1
all_known-present allowed ((k, some v) ∷ fs) h =
    let (here, rest) = and_true (contains k allowed) (names_known allowed fs) h in
    rw here (all_known-present allowed fs rest)

abbrev pub is_set : Option Value → Bool
is_set none = false
is_set (some v) = true

-- Whether a field of EVStateConfig is set.
abbrev some_ev_set : Fields → Bool
some_ev_set [] = false
some_ev_set ((k, o) ∷ fs) = contains k ev_state_fields && is_set o || some_ev_set fs

set_none : (b x y : Bool) → x ≡ y → x ≡ (b && false || y)
set_none true x y h = h
set_none false x y h = h

set_some : (b x y : Bool) → x ≡ y → (b || x) ≡ (b && true || y)
set_some true x y h = refl
set_some false x y h = h

pub has_ev_values-present : (fs : Fields) → has_ev_values (present fs) ≡ some_ev_set fs
unfolding present
has_ev_values-present [] = refl
has_ev_values-present ((k, none) ∷ fs) =
    set_none (contains k ev_state_fields) _ _ (has_ev_values-present fs)
has_ev_values-present ((k, some v) ∷ fs) =
    set_some (contains k ev_state_fields) _ _ (has_ev_values-present fs)

pub then_done :
    {A B : Type 0} (o : Checked A) (f : A → Checked B) (a : A) {r : Checked B}
    → o ≡ done a
    → f a ≡ r
    → (o >>= f) ≡ r
then_done o f a e k = ap (λ p. p >>= f) e ∙ k

abbrev pub or_default : {A : Type 0} → A → Option A → A
or_default a none = a
or_default a (some b) = b

pub positive_or :
    (default : ℕ) (o : Option ℕ)
    → ltb 0 default ≡ true
    → IsFrom 1 o
    → ltb 0 (or_default default o) ≡ true
positive_or default none h k = h
positive_or default (some n) h k = lt→ltb 0 n k

pub or_else-none : (o : Option Value) → or_else o none ≡ o
or_else-none none = refl
or_else-none (some v) = refl

pub int_or-value :
    (default : ℕ) (o : Option ℕ) → int_or default (int_value o) ≡ done (or_default default o)
int_or-value default none = refl
int_or-value default (some n) = refl

pub option_int-value : (o : Option ℕ) → option_int (int_value o) ≡ done o
option_int-value none = refl
option_int-value (some n) = refl

pub ratio_or-value :
    (default : Ratio) (o : Option Ratio)
    → ratio_or default (ratio_value o) ≡ done (or_default default o)
ratio_or-value default none = refl
ratio_or-value default (some r) = refl
