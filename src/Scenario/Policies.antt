-- ===== src/Scenario/Policies.antt =====
-- srv6_mrc/policy.py: `policy_from_spec` and the constructors it calls.
use Prim.Native.String.{String}
use text.Mathlib.Text.{◌==◌ as str_eq}
use srv6_mrc_emulator.Common.{
  ℕ, Bool, false, not, ◌&&◌, ◌||◌, List, [], ◌∷◌, map, Option, none, some, ltb, ◌==◌, if◌then◌else◌,
  length,
}
use srv6_mrc_emulator.Common.Texts.{all_of}
use srv6_mrc_emulator.Topo.Defs.{Shape}
use srv6_mrc_emulator.Policy.Defs.{check_paths}
use srv6_mrc_emulator.Scenario.Outcome.{
  Checked, done, wrong_value, wrong_type, need_value, of_result, each_from, ◌>>=◌, ◌>>◌,
}
use srv6_mrc_emulator.Scenario.Value.{Value, str, list, mapping, empty, entry, items, pairs_of}
use srv6_mrc_emulator.Scenario.Numbers.{Signed, int_of, float_of}

-- The policies, with what their constructors check; a factory keeps a `paths_per_plane` unchecked.
pub data Policy : Type 0 where
  round_robin hash5_tuple : Policy
  ev_spray : ℕ → Policy
  health_aware_mrc : Signed → Policy
  weighted : List Signed → Policy

abbrev pub is_negative : Signed → Bool
is_negative x = x.negative && ltb 0 x.size.num

abbrev pub is_minus_one : Signed → Bool
is_minus_one x = x.negative && x.size.num == 1

-- EvSpray(paths_per_plane=n), where -1 stands for all.
unfoldable pub make_ev_spray : Shape → Option Signed → Checked Policy
make_ev_spray sh none = of_result (check_paths sh none) >>= λ n. done (ev_spray n)
make_ev_spray sh (some x) =
    if is_minus_one x
    then (of_result (check_paths sh none) >>= λ n. done (ev_spray n))
    else if is_negative x
    then wrong_value
    else (of_result (check_paths sh (some x.size.num)) >>= λ n. done (ev_spray n))

abbrev pub all_paths : Shape → Signed
all_paths sh = record { negative = false; size = record { num = sh.num_spines; den = 1 } }

-- HealthAwareMrcFactory(paths_per_plane=n)
unfoldable pub make_factory : Shape → Option Signed → Policy
make_factory sh none = health_aware_mrc (all_paths sh)
make_factory sh (some x) =
    if is_minus_one x then health_aware_mrc (all_paths sh) else health_aware_mrc x

abbrev pub some_positive : List Signed → Bool
some_positive [] = false
some_positive (w ∷ ws) = ltb 0 w.size.num || some_positive ws

-- Weighted(weights): a sum of weights that are not negative is positive if one of them is.
unfoldable pub check_weights : Shape → List Signed → Checked Policy
check_weights sh ws = do
  need_value (length ws == sh.num_planes)
  need_value (all_of (λ w. not (is_negative w)) ws)
  need_value (some_positive ws)
  done (weighted ws)

abbrev pub characters : String → List Value
characters String.[] = []
characters (String.◌∷◌ c s) = str (String.◌∷◌ c String.[]) ∷ characters s

-- for x in value: the items of a list, the characters of a text, the keys of a mapping.
unfoldable pub iterate : Value → Checked (List Value)
iterate (list vs) = done (items vs)
iterate (str s) = done (characters s)
iterate (mapping d) = done (map (λ (e : String × Value). str e.0) (pairs_of d))
iterate _ = wrong_type

-- A text.
unfoldable pub named_policy : Shape → String → Checked Policy
named_policy sh s =
    if str_eq s "round_robin"
    then done round_robin
    else if str_eq s "hash5tuple"
    then done hash5_tuple
    else if str_eq s "ev_spray"
    then make_ev_spray sh none
    else if str_eq s "health_aware_mrc"
    then done (make_factory sh none)
    else wrong_value

-- A mapping of one key.
unfoldable pub made_policy : Shape → String → Value → Checked Policy
made_policy sh kind value =
    if str_eq kind "weighted"
    then (iterate value >>= λ vs.
        (each_from 0 (λ i v. float_of v) vs >>= λ ws. check_weights sh ws))
    else if str_eq kind "ev_spray"
    then (int_of value >>= λ n. make_ev_spray sh (some n))
    else if str_eq kind "health_aware_mrc"
    then (int_of value >>= λ n. done (make_factory sh (some n)))
    else wrong_value

unfoldable pub policy_from_spec : Shape → Value → Checked Policy
policy_from_spec sh (str s) = named_policy sh s
policy_from_spec sh (mapping (entry kind value empty)) = made_policy sh kind value
policy_from_spec sh _ = wrong_value
