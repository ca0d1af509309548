-- ===== src/Scenario/Pairs.antt =====
-- srv6_mrc/mrc/scenario.py: the pairs of a flow, named or listed.
use Prim.Native.String.{String}
use srv6_mrc_emulator.Common.{
  ℕ, ◌+◌, ◌-◌, ◌/◌, ◌%◌, not, List, [], ◌∷◌, ◌++◌, map, foldl, Option, none, some, ltb, ◌==◌,
  if◌then◌else◌, list_discrete, range, cells,
}
use srv6_mrc_emulator.Common.Dict.{find, put}
use srv6_mrc_emulator.Topo.Defs.{Text}
use srv6_mrc_emulator.Topo.Text.{codes}
use srv6_mrc_emulator.Topo.Addresses.{Fabric, contains}
use srv6_mrc_emulator.Scenario.Outcome.{
  Place, key, at, Checked, done, scenario_error, need, each_from, ◌>>=◌, ◌>>◌,
}
use srv6_mrc_emulator.Scenario.Value.{
  Value, Entries, null, flag, pos, str, list, mapping, nil, cons, items, get, require_keys,
}

pub record FlowPair : Type 0 where
  pub tenant : String
  pub src : ℕ
  pub dst : ℕ

abbrev pub pair : String → ℕ × ℕ → FlowPair
pair tenant (a, b) = record { tenant = tenant; src = a; dst = b }

abbrev pub reference_pairs_16 : List (ℕ × ℕ)
reference_pairs_16 =
    (0, 15) ∷ (1, 14) ∷ (2, 13) ∷ (3, 12) ∷ (4, 11) ∷ (5, 10) ∷ (6, 9) ∷ (7, 8) ∷ []

abbrev pub reference_pairs_8 : List (ℕ × ℕ)
reference_pairs_8 = (0, 7) ∷ (1, 6) ∷ (2, 5) ∷ (3, 4) ∷ []

-- if i != j
unfoldable pub differing : List (ℕ × ℕ) → List (ℕ × ℕ)
differing [] = []
differing ((i, j) ∷ cs) = let rest = differing cs in if i == j then rest else (i, j) ∷ rest

unfoldable pub all_to_all_pairs : ℕ → String → List FlowPair
all_to_all_pairs n tenant = map (pair tenant) (differing (cells n n))

unfoldable pub ring_pairs : ℕ → String → List FlowPair
ring_pairs n tenant = map (λ i. pair tenant (i, (i + 1) % n)) (range n)

unfoldable pub mirror_pairs : ℕ → String → List FlowPair
mirror_pairs n tenant = map (λ i. pair tenant (i, n - 1 - i)) (range (n / 2))

abbrev pub PairSets : Type 0
PairSets = List (Text × List FlowPair)

abbrev pub set_pairs : PairSets → Text → List FlowPair → PairSets
set_pairs m name ps = put list_discrete name ps m

abbrev pub fixed_pair_sets : PairSets
fixed_pair_sets =
    (codes "green-pairs-8", map (pair "green") reference_pairs_16)
    ∷ (codes "yellow-pairs-8", map (pair "yellow") reference_pairs_16)
    ∷ (codes "green-pairs-4", map (pair "green") reference_pairs_8)
    ∷ (codes "yellow-pairs-4", map (pair "yellow") reference_pairs_8)
    ∷ (codes "green-00-15", pair "green" (0, 15) ∷ [])
    ∷ (codes "yellow-00-15", pair "yellow" (0, 15) ∷ [])
    ∷ []

abbrev pub add_tenant : ℕ → PairSets → String → PairSets
add_tenant n m t =
    set_pairs
      (set_pairs (set_pairs m (codes t ++ codes "-all-to-all") (all_to_all_pairs n t))
        (codes t ++ codes "-ring") (ring_pairs n t))
      (codes t ++ codes "-pairs") (mirror_pairs n t)

-- NAMED_PAIR_SETS
unfoldable pub named_pair_sets : Fabric → PairSets
named_pair_sets f = foldl (add_tenant f.num_leaves) fixed_pair_sets f.tenants

-- d[leaf], of a mapping that has the key; the code reads no other.
abbrev pub field : String → Entries → Value
field k d = elim (get k d) [ none ↦ null | some v ↦ v ]

unfoldable pub require_choice : List String → Value → Place → Checked String
require_choice choices (str s) path = if contains s choices then done s else scenario_error path
require_choice choices _ path = scenario_error path

-- A bool is an int here too.
unfoldable pub require_host_id : ℕ → Value → Place → Checked ℕ
require_host_id num_leaves (flag b) path =
    let n = if b then 1 else 0 in if ltb n num_leaves then done n else scenario_error path
require_host_id num_leaves (pos n) path = if ltb n num_leaves then done n else scenario_error path
require_host_id num_leaves _ path = scenario_error path

abbrev pub item_at : Place → ℕ → Place
item_at path i = path ++ (at i ∷ [])

abbrev pub field_at : Place → String → Place
field_at path k = path ++ (key k ∷ [])

abbrev pub resolve_entry : Fabric → Place → Entries → Checked FlowPair
resolve_entry f path d = do
  require_keys d path ("tenant" ∷ "src" ∷ "dst" ∷ []) []
  tenant ← require_choice f.tenants (field "tenant" d) (field_at path "tenant")
  src ← require_host_id f.num_leaves (field "src" d) (field_at path "src")
  dst ← require_host_id f.num_leaves (field "dst" d) (field_at path "dst")
  need (not (src == dst)) path
  done (record { tenant = tenant; src = src; dst = dst })

unfoldable pub resolve_pair : Fabric → Place → ℕ → Value → Checked FlowPair
resolve_pair f path i (mapping d) = resolve_entry f (item_at path i) d
resolve_pair f path i _ = scenario_error (item_at path i)

abbrev pub or_unknown : Place → Option (List FlowPair) → Checked (List FlowPair)
or_unknown path none = scenario_error path
or_unknown path (some ps) = done ps

unfoldable pub resolve_pairs : Fabric → Value → Place → Checked (List FlowPair)
resolve_pairs f (str s) path = or_unknown path (find list_discrete (codes s) (named_pair_sets f))
resolve_pairs f (list nil) path = scenario_error path
resolve_pairs f (list (cons v vs)) path = each_from 0 (resolve_pair f path) (v ∷ items vs)
resolve_pairs f _ path = scenario_error path
