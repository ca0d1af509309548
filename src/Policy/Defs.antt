-- ===== src/Policy/Defs.antt =====
-- srv6_mrc/policy.py. Weights are exact multiples of one unit, which cancels when `_build_cdf` divides
-- by their sum. A policy that has no `Topology` takes the shape from the module's constants.
use srv6_mrc_emulator.Common.{
  ℕ, zero, suc, ◌+◌, ◌-◌, ◌*◌, ◌/◌, ◌%◌, ◌^◌, Bool, true, false, ◌&&◌, List, [], ◌∷◌, ◌++◌, map,
  Option, none, some, ltb, leb, ◌==◌, if◌then◌else◌, length, get_or, sum_by, Grid, value_error,
  Result, ok, guard, ◌>>=◌, ◌>>◌,
}
use srv6_mrc_emulator.Topo.Defs.{Shape, FlowKey, Text, wrap64, hash5, select_spines_for_addrs}
use srv6_mrc_emulator.EvState.Defs.{Ratio, ratio_lt}

abbrev pub golden_ratio_64 : ℕ
golden_ratio_64 = 0x9E3779B97F4A7C15

abbrev pub total : List ℕ → ℕ
total ws = sum_by (λ (w : ℕ). w) ws

unfoldable pub cdf_from : ℕ → ℕ → List ℕ → List Ratio
cdf_from sum cum [] = []
cdf_from sum cum (w ∷ ws) = record { num = cum + w; den = sum } ∷ cdf_from sum (cum + w) ws

-- cdf[-1] = 1.0
unfoldable pub force_last : List Ratio → List Ratio
force_last [] = []
force_last (t ∷ []) = record { num = 1; den = 1 } ∷ []
force_last (t ∷ (t' ∷ ts)) = t ∷ force_last (t' ∷ ts)

unfoldable pub build_cdf : List ℕ → List Ratio
build_cdf ws = force_last (cdf_from (total ws) 0 ws)

-- The loop of `_weighted_pick`, from index `p` on.
unfoldable pub first_above : Ratio → ℕ → ℕ → List Ratio → ℕ
first_above u last p [] = last
first_above u last p (t ∷ ts) =
    let rest = first_above u last (suc p) ts in if ratio_lt u t then p else rest

unfoldable pub weighted_pick : ℕ → FlowKey → List Ratio → ℕ
weighted_pick seq flow cdf =
    let u : Ratio = record { num = wrap64 (hash5 flow + seq * golden_ratio_64); den = 2 ^ 64 } in
    first_above u (length cdf - 1) 0 cdf

unfoldable pub round_robin_pick : Shape → ℕ → ℕ
round_robin_pick sh seq = seq % sh.num_planes

unfoldable pub hash5_pick : Shape → FlowKey → ℕ
hash5_pick sh flow = hash5 flow % sh.num_planes

-- `Weighted`: the thresholds, if the weights are as many as the planes and not all zero.
unfoldable pub make_weighted : Shape → List ℕ → Result (List Ratio)
make_weighted sh ws = do
  guard (length ws == sh.num_planes) value_error
  guard (ltb 0 (total ws)) value_error
  ok (build_cdf ws)

-- `paths_per_plane`, where `none` is the default -1.
abbrev pub or_all : Shape → Option ℕ → ℕ
or_all sh none = sh.num_spines
or_all sh (some n) = n

unfoldable pub check_paths : Shape → Option ℕ → Result ℕ
check_paths sh paths_per_plane = do
  let n = or_all sh paths_per_plane
  guard (leb 1 n && leb n sh.num_spines) value_error
  ok n

abbrev pub text_eq : Text → Text → Bool
text_eq [] [] = true
text_eq [] (y ∷ b) = false
text_eq (x ∷ a) [] = false
text_eq (x ∷ a) (y ∷ b) = x == y && text_eq a b

abbrev pub same_flow : FlowKey → FlowKey → Bool
same_flow f g =
    text_eq f.src_addr g.src_addr
    && (text_eq f.dst_addr g.dst_addr && (f.src_port == g.src_port && f.dst_port == g.dst_port))

-- `_spine_subsets`
abbrev pub Subsets : Type 0
Subsets = List (FlowKey × List ℕ)

unfoldable pub find_subset : FlowKey → Subsets → Option (List ℕ)
find_subset flow [] = none
find_subset flow ((g, s) ∷ m) =
    let rest = find_subset flow m in if same_flow g flow then some s else rest

unfoldable pub spines_for_flow : Shape → ℕ → Subsets → FlowKey → Result (List ℕ × Subsets)
spines_for_flow sh paths_per_plane cache flow = elim (find_subset flow cache) [
  | some s ↦ ok (s, cache)
  | none ↦ do
    s ← select_spines_for_addrs sh.num_spines flow.src_addr flow.dst_addr paths_per_plane
    ok (s, cache ++ (flow, s) ∷ [])
]

-- `EvSpray.pick_ev` on the flow's spines: all the planes on one spine, then the next spine.
unfoldable pub spray_ev : Shape → List ℕ → ℕ → ℕ × ℕ
spray_ev sh spines seq =
    let ev_idx = seq % (sh.num_planes * length spines) in
    (ev_idx % sh.num_planes, get_or spines (ev_idx / sh.num_planes % length spines) 0)

unfoldable pub ev_spray_pick_ev : Shape → ℕ → Subsets → ℕ → FlowKey → Result ((ℕ × ℕ) × Subsets)
ev_spray_pick_ev sh paths_per_plane cache seq flow = do
  (spines, cache') ← spines_for_flow sh paths_per_plane cache flow
  ok (spray_ev sh spines seq, cache')

-- The flat weights: for each plane from `p` on, the weights of the flow's spines.
unfoldable pub flat_from : Grid ℕ → List ℕ → ℕ → ℕ → List ℕ
flat_from w spines p zero = []
flat_from w spines p (suc n) = map (λ sp. w p sp) spines ++ flat_from w spines (suc p) n

-- `HealthAwareMrc.pick_ev` on the flow's spines and the table's weights.
unfoldable pub weighted_ev : Shape → Grid ℕ → List ℕ → ℕ → FlowKey → ℕ × ℕ
weighted_ev sh w spines seq flow =
    let flat = flat_from w spines 0 sh.num_planes in
    let ev_idx =
      if total flat == 0
      then seq % (sh.num_planes * length spines)
      else weighted_pick seq flow (build_cdf flat) in
    (ev_idx / length spines, get_or spines (ev_idx % length spines) 0)

unfoldable pub health_aware_pick_ev :
    Shape → ℕ → Grid ℕ → Subsets → ℕ → FlowKey → Result ((ℕ × ℕ) × Subsets)
health_aware_pick_ev sh paths_per_plane w cache seq flow = do
  (spines, cache') ← spines_for_flow sh paths_per_plane cache flow
  ok (weighted_ev sh w spines seq flow, cache')
