-- ===== src/Scenario/Value.antt =====
-- A parsed YAML document, as `yaml.safe_load` gives it: the keys of its mappings are texts, each once, and its floats are finite.
use Prim.Native.String.{String}
use text.Mathlib.Text.{◌==◌ as str_eq}
use srv6_mrc_emulator.Common.{
  ℕ, if◌then◌else◌, Bool, true, false, ◌&&◌, ◌||◌, List, [], ◌∷◌, ◌++◌, Option, string_discrete,
}
use srv6_mrc_emulator.Common.Dict.{find}
use srv6_mrc_emulator.Topo.Addresses.{contains}
use srv6_mrc_emulator.EvState.Defs.{Ratio}
use srv6_mrc_emulator.Scenario.Outcome.{Place, Checked, done, scenario_error}

-- `negsuc n` is the int -(n + 1); a float is its sign and its size.
mutual
  pub data Value : Type 0 where
    null : Value
    flag : Bool → Value
    pos negsuc : ℕ → Value
    float : Bool → Ratio → Value
    str : String → Value
    list : Values → Value
    mapping : Entries → Value

  pub data Values : Type 0 where
    nil : Values
    cons : Value → Values → Values

  pub data Entries : Type 0 where
    empty : Entries
    entry : String → Value → Entries → Entries

abbrev pub items : Values → List Value
items nil = []
items (cons v vs) = v ∷ items vs

abbrev pub pairs_of : Entries → List (String × Value)
pairs_of empty = []
pairs_of (entry k v es) = (k, v) ∷ pairs_of es

-- d.get(k)
abbrev pub get : String → Entries → Option Value
get k d = find string_discrete k (pairs_of d)

abbrev pub has : String → Entries → Bool
has k empty = false
has k (entry j v d) = str_eq j k || has k d

-- required - keys
unfoldable pub has_all : List String → Entries → Bool
has_all [] d = true
has_all (k ∷ ks) d = has k d && has_all ks d

-- keys - allowed
unfoldable pub all_known : List String → Entries → Bool
all_known allowed empty = true
all_known allowed (entry k v d) = contains k allowed && all_known allowed d

unfoldable pub require_keys : Entries → Place → List String → List String → Checked (Unit {0})
require_keys d path required optional =
    if has_all required d && all_known (required ++ optional) d
    then done tt
    else scenario_error path
