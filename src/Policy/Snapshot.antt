-- ===== src/Policy/Snapshot.antt =====
-- srv6_mrc/policy.py: `MrcSnapshot`, the policy that reads its weights from the daemon's snapshot file.
use srv6_mrc_emulator.Common.{
  ℕ, ◌+◌, ◌*◌, ◌/◌, ◌%◌, ◌&&◌, List, [], ◌∷◌, ◌++◌, Option, none, some, ltb, leb, ◌==◌,
  if◌then◌else◌, length, get_or, Grid, value_error, Result, ok, raise, guard, ◌>>=◌, ◌>>◌,
}
use srv6_mrc_emulator.Topo.Defs.{Shape, FlowKey, Text}
use srv6_mrc_emulator.EvState.Defs.{Ratio}
use srv6_mrc_emulator.Policy.Defs.{
  total, build_cdf, weighted_pick, flat_from, text_eq, Subsets, spines_for_flow, check_paths,
}

-- The part of a snapshot that the policy reads: each tenant's weights, plane by plane.
pub record SnapshotData : Type 0 where
  pub planes : ℕ
  pub paths : ℕ
  pub tenants : List (Text × List ℕ)

-- What the operating system answers: no file, an error, or a file with its time and its content, which
-- is `none` if reading or parsing it raises an error that the code catches.
pub data Attempt : Type 0 where
  missing failed : Attempt
  found : ℕ → Option SnapshotData → Attempt

pub record MrcSnapshot : Type 0 where
  pub tenant : Text
  pub shape : Shape
  pub paths_per_plane : ℕ
  pub wgrid : Grid ℕ
  pub last_mtime : ℕ
  pub spine_subsets : Subsets
  pub cdf_cache : List (List ℕ × List Ratio)
  pub refresh_attempts : ℕ
  pub refresh_loaded : ℕ
  pub refresh_errors : ℕ
  pub refresh_missing : ℕ

unfoldable pub find_weights : Text → List (Text × List ℕ) → Option (List ℕ)
find_weights tenant [] = none
find_weights tenant ((name, ws) ∷ m) =
    let rest = find_weights tenant m in if text_eq name tenant then some ws else rest

-- `_wgrid_from_snapshot`: the KeyError of an unknown tenant is caught with the ValueErrors.
unfoldable pub wgrid_from_snapshot : MrcSnapshot → SnapshotData → Result (Grid ℕ)
wgrid_from_snapshot t snap = do
  guard (snap.planes == t.shape.num_planes && snap.paths == t.shape.num_spines) value_error
  elim (find_weights t.tenant snap.tenants) [
    | none ↦ raise value_error
    | some evs ↦ do
      guard (length evs == snap.planes * snap.paths) value_error
      ok (λ plane path. get_or evs (plane * snap.paths + path) 0)
  ]

abbrev pub count_error : MrcSnapshot → MrcSnapshot
count_error t = record t { refresh_errors = t.refresh_errors + 1 }

abbrev pub load : MrcSnapshot → ℕ → Result (Grid ℕ) → MrcSnapshot
load t mtime (raise e) = count_error t
load t mtime (ok wgrid) = record t {
  wgrid = wgrid;
  last_mtime = mtime;
  refresh_loaded = t.refresh_loaded + 1;
  cdf_cache = [];
}

abbrev pub read_content : MrcSnapshot → Option SnapshotData → Result (Grid ℕ)
read_content t none = raise value_error
read_content t (some snap) = wgrid_from_snapshot t snap

-- `_refresh_once` past the count of attempts.
unfoldable pub refresh : MrcSnapshot → Attempt → MrcSnapshot
refresh t missing = record t { refresh_missing = t.refresh_missing + 1 }
refresh t failed = count_error t
refresh t (found mtime content) =
    if leb mtime t.last_mtime then t else load t mtime (read_content t content)

unfoldable pub refresh_once : MrcSnapshot → Attempt → MrcSnapshot
refresh_once t a = refresh (record t { refresh_attempts = t.refresh_attempts + 1 }) a

-- The fields as the constructor sets them, with a uniform grid.
abbrev pub cold_start : Text → Shape → ℕ → MrcSnapshot
cold_start tenant sh paths = record {
  tenant = tenant;
  shape = sh;
  paths_per_plane = paths;
  wgrid = λ plane path. 1;
  last_mtime = 0;
  spine_subsets = [];
  cdf_cache = [];
  refresh_attempts = 0;
  refresh_loaded = 0;
  refresh_errors = 0;
  refresh_missing = 0;
}

-- The constructor ends with a first load.
unfoldable pub new_snapshot : Text → Shape → Option ℕ → ℕ → Attempt → Result MrcSnapshot
new_snapshot tenant sh paths_per_plane refresh_interval_ms a = do
  paths ← check_paths sh paths_per_plane
  guard (ltb 0 refresh_interval_ms) value_error
  ok (refresh_once (cold_start tenant sh paths) a)

-- `_cdf_cache`. It is emptied with every new grid, so the grid's identity in its keys is constant.
unfoldable pub find_cdf : List ℕ → List (List ℕ × List Ratio) → Option (List Ratio)
find_cdf spines [] = none
find_cdf spines ((s, cdf) ∷ m) =
    let rest = find_cdf spines m in if text_eq s spines then some cdf else rest

-- The thresholds for the flow's spines, or none if all the weights are zero, and the cache.
unfoldable pub cdf_for : MrcSnapshot → List ℕ → Option (List Ratio) × List (List ℕ × List Ratio)
cdf_for t spines = elim (find_cdf spines t.cdf_cache) [
  | some cdf ↦ (some cdf, t.cdf_cache)
  | none ↦
      let flat = flat_from t.wgrid spines 0 t.shape.num_planes in
      if ltb 0 (total flat)
      then (some (build_cdf flat), t.cdf_cache ++ (spines, build_cdf flat) ∷ [])
      else (none, t.cdf_cache)
]

abbrev pub ev_index : MrcSnapshot → List ℕ → ℕ → FlowKey → Option (List Ratio) → ℕ
ev_index t spines seq flow none = seq % (t.shape.num_planes * length spines)
ev_index t spines seq flow (some cdf) = weighted_pick seq flow cdf

unfoldable pub snapshot_pick_ev : MrcSnapshot → ℕ → FlowKey → Result ((ℕ × ℕ) × MrcSnapshot)
snapshot_pick_ev t seq flow = do
  (spines, subsets) ← spines_for_flow t.shape t.paths_per_plane t.spine_subsets flow
  let (cdf, cache) = cdf_for t spines
  let ev_idx = ev_index t spines seq flow cdf
  ok (
    (ev_idx / length spines, get_or spines (ev_idx % length spines) 0),
    record t { spine_subsets = subsets; cdf_cache = cache },
  )
