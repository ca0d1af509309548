-- ===== src/Reorder/Defs.antt =====
-- srv6_mrc/reorder.py: `FlowStats` and `ReorderTracker`. The last number seen is `none` where the code
-- has -1; a set is the list of its elements.
use srv6_mrc_emulator.Common.{
  ℕ, ◌+◌, ◌*◌, ◌-◌, Bool, false, ◌&&◌, ◌||◌, List, [], ◌∷◌, map, Option, none, some, ltb, leb, ◌==◌,
  if◌then◌else◌, length, min, max, sum_by, value_error, Result, ok, guard, ◌>>◌,
}
use native.Mathlib.Decide.{ℕ_discrete}
use srv6_mrc_emulator.Common.Dict.{find, put}
use srv6_mrc_emulator.EvState.Defs.{Ratio}

-- The counters, by key, and the `get(key, 0) + 1` on them.
abbrev pub Counts : Type 0
Counts = List (ℕ × ℕ)

abbrev pub or_zero : Option ℕ → ℕ
or_zero none = 0
or_zero (some n) = n

unfoldable pub bump : ℕ → Counts → Counts
bump key m = put ℕ_discrete key (or_zero (find ℕ_discrete key m) + 1) m

pub record FlowStats : Type 0 where
  pub first_seq : Option ℕ
  pub last_seq_seen : Option ℕ
  pub received : ℕ
  pub duplicates : ℕ
  pub per_plane : Counts
  pub reorder_hist : Counts
  pub window : List ℕ

abbrev pub new_stats : FlowStats
new_stats = record {
  first_seq = none;
  last_seq_seen = none;
  received = 0;
  duplicates = 0;
  per_plane = [];
  reorder_hist = [];
  window = [];
}

abbrev pub window_cap : ℕ
window_cap = 4096

abbrev pub contains : ℕ → List ℕ → Bool
contains s [] = false
contains s (x ∷ xs) = x == s || contains s xs

-- min(window), of a set that has an element
abbrev pub least : ℕ → List ℕ → ℕ
least m [] = m
least m (x ∷ xs) = least (min m x) xs

abbrev pub discard : ℕ → List ℕ → List ℕ
discard s [] = []
discard s (x ∷ xs) = if x == s then xs else x ∷ discard s xs

-- The window with the new number, less its least one past the bound.
unfoldable pub remember : ℕ → List ℕ → List ℕ
remember seq window =
    if ltb window_cap (length (seq ∷ window))
    then discard (least seq window) (seq ∷ window)
    else seq ∷ window

abbrev pub or_first : ℕ → Option ℕ → Option ℕ
or_first seq none = some seq
or_first seq (some first) = some first

abbrev pub count_plane : Option ℕ → Counts → Counts
count_plane none m = m
count_plane (some plane) m = bump plane m

-- A number above the last one is in order; another is late by the difference.
abbrev pub distance : ℕ → Option ℕ → ℕ
distance seq none = 0
distance seq (some last) = last - seq

abbrev pub advance : ℕ → Option ℕ → Option ℕ
advance seq none = some seq
advance seq (some last) = if ltb last seq then some seq else some last

unfoldable pub observe : FlowStats → ℕ → Option ℕ → FlowStats
observe st seq plane =
    if contains seq st.window
    then record st { first_seq = or_first seq st.first_seq; duplicates = st.duplicates + 1 }
    else record st {
      first_seq = or_first seq st.first_seq;
      window = remember seq st.window;
      received = st.received + 1;
      per_plane = count_plane plane st.per_plane;
      last_seq_seen = advance seq st.last_seq_seen;
      reorder_hist = bump (distance seq st.last_seq_seen) st.reorder_hist;
    }

abbrev pub span : Option ℕ → Option ℕ → ℕ
span none last = 0
span (some first) none = 0
span (some first) (some last) = last + 1 - first

unfoldable pub expected : FlowStats → ℕ
expected st = span st.first_seq st.last_seq_seen

unfoldable pub loss : FlowStats → ℕ
loss st = expected st - st.received

abbrev pub greatest : List ℕ → ℕ
greatest [] = 0
greatest (x ∷ xs) = max x (greatest xs)

abbrev pub keys : Counts → List ℕ
keys m = map (λ e. e.0) m

abbrev pub total : Counts → ℕ
total m = sum_by (λ e. e.1) m

unfoldable pub reorder_max : FlowStats → ℕ
reorder_max st = greatest (keys st.reorder_hist)

unfoldable pub reorder_mean : FlowStats → Ratio
reorder_mean st = elim st.reorder_hist [
  | [] ↦ record { num = 0; den = 1 }
  | e ∷ m ↦ record { num = sum_by (λ x. x.0 * x.1) (e ∷ m); den = total (e ∷ m) }
]

-- sorted(hist): by insertion, on keys that are all different.
abbrev pub insert : ℕ × ℕ → Counts → Counts
insert e [] = e ∷ []
insert e (x ∷ m) = if leb e.0 x.0 then e ∷ x ∷ m else x ∷ insert e m

unfoldable pub by_distance : Counts → Counts
by_distance [] = []
by_distance (e ∷ m) = insert e (by_distance m)

-- The loop: the first distance at which the running count, out of `sum`, reaches the percentage.
unfoldable pub reach : Ratio → ℕ → ℕ → ℕ → Counts → ℕ
reach pct sum cum last [] = last
reach pct sum cum last ((d, n) ∷ m) =
    let rest = reach pct sum (cum + n) last m in
    if leb (sum * pct.num) ((cum + n) * (100 * pct.den)) then d else rest

unfoldable pub reorder_percentile : FlowStats → Ratio → Result ℕ
reorder_percentile st pct = elim st.reorder_hist [
  | [] ↦ ok 0
  | e ∷ m ↦ do
    guard (ltb 0 pct.num && leb pct.num (100 * pct.den)) value_error
    ok (reach pct (total (e ∷ m)) 0 (greatest (keys (e ∷ m))) (by_distance (e ∷ m)))
]
