-- ===== src/Policy/Twin.antt =====
-- srv6_mrc/policy.py: the caches of `MrcSnapshot` never change a choice, which is the one that
-- `HealthAwareMrc` makes on the weights last loaded.
use srv6_mrc_emulator.Common.{
  ℕ, ◌+◌, ◌*◌, ◌/◌, ◌%◌, ◌<◌, ◌≡◌, ◌∙◌, ap, refl, sym, inl, inr, true, false, List, [], ◌∷◌, ◌++◌,
  foldl, Option, some, ltb, leb, ◌==◌, if◌then◌else◌, arith, length, get_or, Grid, value_error,
  Result, ok, raise, guard, All, All-append, Bool-cases, Option-cases, >>=-eq-ok, ◌>>=◌, foldl_inv,
  if_elim,
}
use srv6_mrc_emulator.Topo.Defs.{Shape, FlowKey, Text, select_spines_for_addrs}
use srv6_mrc_emulator.EvState.Defs.{Ratio}
use srv6_mrc_emulator.Policy.Defs.{
  total, build_cdf, weighted_pick, flat_from, text_eq, same_flow, Subsets, find_subset,
  spines_for_flow, weighted_ev, check_paths,
}
use srv6_mrc_emulator.Policy.Snapshot.{
  Attempt, MrcSnapshot, missing, failed, found, load, read_content, refresh, refresh_once, find_cdf,
  cdf_for, ev_index, snapshot_pick_ev, new_snapshot, cold_start,
}

text_eq_sound : (a b : Text) → text_eq a b ≡ true → a ≡ b
text_eq_sound [] [] h = refl
text_eq_sound [] (y ∷ b) h = cc
text_eq_sound (x ∷ a) [] h = cc
text_eq_sound (x ∷ a) (y ∷ b) h = ground (arith, text_eq_sound a b)

-- Each remembered subset is the flow's, and each remembered distribution is that of the grid.
abbrev pub IsSubset : Shape → ℕ → FlowKey × List ℕ → Type 0
IsSubset sh paths (f, s) = select_spines_for_addrs sh.num_spines f.src_addr f.dst_addr paths ≡ ok s

abbrev pub IsCdf : Shape → Grid ℕ → List ℕ × List Ratio → Type 0
IsCdf sh w (s, cdf) =
    (cdf ≡ build_cdf (flat_from w s 0 sh.num_planes)) × (0 < total (flat_from w s 0 sh.num_planes))

pub record IsCached (t : MrcSnapshot) : Type 0 where
  pub subsets : All (IsSubset t.shape t.paths_per_plane) t.spine_subsets
  pub cdfs : All (IsCdf t.shape t.wgrid) t.cdf_cache

find_subset-IsSubset :
    (sh : Shape) (paths : ℕ) (flow : FlowKey) (m : Subsets) {s : List ℕ}
    → All (IsSubset sh paths) m
    → find_subset flow m ≡ some s
    → IsSubset sh paths (flow, s)
unfolding find_subset
find_subset-IsSubset sh paths flow [] h e = cc
find_subset-IsSubset sh paths flow ((g, s') ∷ m) {s} h e = elim (Bool-cases (same_flow g flow)) [
  | inl same ↦
      let src = text_eq_sound g.src_addr flow.src_addr (ground arith) in
      let dst = text_eq_sound g.dst_addr flow.dst_addr (ground arith) in
      let out : s' ≡ s = ground arith in rw (← src, ← dst, ← out) h.0
  | inr other ↦ find_subset-IsSubset sh paths flow m h.1 (ground arith)
]

find_cdf-IsCdf :
    (sh : Shape) (w : Grid ℕ) (spines : List ℕ) (m : List (List ℕ × List Ratio)) {cdf : List Ratio}
    → All (IsCdf sh w) m
    → find_cdf spines m ≡ some cdf
    → IsCdf sh w (spines, cdf)
unfolding find_cdf
find_cdf-IsCdf sh w spines [] h e = cc
find_cdf-IsCdf sh w spines ((s, c) ∷ m) {cdf} h e = elim (Bool-cases (text_eq s spines)) [
  | inl same ↦
      let key = text_eq_sound s spines same in
      let out : c ≡ cdf = ground arith in rw (← key, ← out) h.0
  | inr other ↦ find_cdf-IsCdf sh w spines m h.1 (ground arith)
]

-- What the subset cache answers, and what it keeps.
spines_for_flow-IsSubset :
    (sh : Shape) (paths : ℕ) (cache : Subsets) (flow : FlowKey) {spines : List ℕ} {cache' : Subsets}
    → All (IsSubset sh paths) cache
    → spines_for_flow sh paths cache flow ≡ ok (spines, cache')
    → IsSubset sh paths (flow, spines) × All (IsSubset sh paths) cache'
unfolding spines_for_flow
spines_for_flow-IsSubset sh paths cache flow {spines} {cache'} h e =
    elim (Option-cases (find_subset flow cache)) [
      | inl none_yet ↦
          let fresh : (select_spines_for_addrs sh.num_spines flow.src_addr flow.dst_addr paths
                >>= λ s. ok (s, cache ++ (flow, s) ∷ []))
              ≡ ok (spines, cache') =
            rw (none_yet, spines_for_flow) at e in
          let (s, picked, done) =
            >>=-eq-ok (select_spines_for_addrs sh.num_spines flow.src_addr flow.dst_addr paths) _
              fresh in
          let same : s ≡ spines = ground arith in
          let kept : cache ++ (flow, s) ∷ [] ≡ cache' = ground arith in
          (
            rw (← same) picked,
            rw (← kept) (All-append (IsSubset sh paths) cache ((flow, s) ∷ []) h (picked, tt)),
          )
      | inr (s, hit) ↦
          let old : ◌≡◌ {A = Result (List ℕ × Subsets)} (ok (s, cache)) (ok (spines, cache')) =
            rw (hit, spines_for_flow) at e in
          let same : s ≡ spines = ground arith in
          let kept : cache ≡ cache' = ground arith in
          (rw (← same) (find_subset-IsSubset sh paths flow cache h hit), rw (← kept) h)
    ]

-- The index drawn with the distribution that the cache gives.
ev_index-cdf_for :
    (t : MrcSnapshot) (spines : List ℕ) (seq : ℕ) (flow : FlowKey)
    → All (IsCdf t.shape t.wgrid) t.cdf_cache
    → let flat = flat_from t.wgrid spines 0 t.shape.num_planes in
      (ev_index t spines seq flow (cdf_for t spines).0 ≡ (
        if total flat == 0
        then seq % (t.shape.num_planes * length spines)
        else weighted_pick seq flow (build_cdf flat)))
      × All (IsCdf t.shape t.wgrid) (cdf_for t spines).1
unfolding cdf_for
ev_index-cdf_for t spines seq flow h =
    let flat = flat_from t.wgrid spines 0 t.shape.num_planes in
    elim (Option-cases (find_cdf spines t.cdf_cache)) [
      | inl none_yet ↦ elim (Bool-cases (ltb 0 (total flat))) [
        | inl live ↦
            let nonzero : (total flat == 0) ≡ false = ground arith in
            rw (none_yet, cdf_for, live, nonzero)
              (
                refl,
                All-append (IsCdf t.shape t.wgrid) t.cdf_cache ((spines, build_cdf flat) ∷ []) h
                    ((refl, ground arith), tt),
              )
        | inr dead ↦
            let zero_sum : (total flat == 0) ≡ true = ground arith in
            rw (none_yet, cdf_for, dead, zero_sum) (refl, h)
      ]
      | inr (cdf, hit) ↦
          let (same, live) = find_cdf-IsCdf t.shape t.wgrid spines t.cdf_cache h hit in
          let nonzero : (total flat == 0) ≡ false = ground arith in
          rw (hit, cdf_for, nonzero) (ap (weighted_pick seq flow) same, h)
    ]

-- One pick: the choice, and the caches after it.
snapshot_pick_ev-IsCached :
    (t : MrcSnapshot) (seq : ℕ) (flow : FlowKey) {ev : ℕ × ℕ} {t' : MrcSnapshot}
    → IsCached t
    → snapshot_pick_ev t seq flow ≡ ok (ev, t')
    → IsCached t'
      × ((spines : List ℕ) × IsSubset t.shape t.paths_per_plane (flow, spines)
          × (ev ≡ weighted_ev t.shape t.wgrid spines seq flow))
unfolding snapshot_pick_ev weighted_ev
snapshot_pick_ev-IsCached t seq flow {ev} {t'} h e =
    let ((spines, subsets), got, done) =
      >>=-eq-ok (spines_for_flow t.shape t.paths_per_plane t.spine_subsets flow) _ e in
    let (mine, kept) =
      spines_for_flow-IsSubset t.shape t.paths_per_plane t.spine_subsets flow h.subsets got in
    let (index, cdfs) = ev_index-cdf_for t spines seq flow h.cdfs in
    let after : record t { spine_subsets = subsets; cdf_cache = (cdf_for t spines).1 } ≡ t' =
      ground arith in
    let chosen : (
      ev_index t spines seq flow (cdf_for t spines).0 / length spines,
      get_or spines (ev_index t spines seq flow (cdf_for t spines).0 % length spines) 0,
    )
        ≡ ev =
      ground arith in
    (
      rw (← after) (record { subsets = kept; cdfs = cdfs }),
      (
        spines,
        mine,
        sym chosen ∙ ap (λ (j : ℕ). (j / length spines, get_or spines (j % length spines) 0)) index,
      ),
    )

refresh_once-IsCached : (t : MrcSnapshot) (a : Attempt) → IsCached t → IsCached (refresh_once t a)
unfolding refresh_once refresh
refresh_once-IsCached t missing h = record { subsets = h.subsets; cdfs = h.cdfs }
refresh_once-IsCached t failed h = record { subsets = h.subsets; cdfs = h.cdfs }
refresh_once-IsCached t (found mtime content) h =
    let t' = record t { refresh_attempts = t.refresh_attempts + 1 } in
    if_elim IsCached (leb mtime t.last_mtime) (record { subsets = h.subsets; cdfs = h.cdfs })
      (loaded t' (read_content t' content) h.subsets h.cdfs)
  where
    loaded :
        (u : MrcSnapshot) (r : Result (Grid ℕ))
        → All (IsSubset u.shape u.paths_per_plane) u.spine_subsets
        → All (IsCdf u.shape u.wgrid) u.cdf_cache
        → IsCached (load u mtime r)
    loaded u (ok w) hs hc = record { subsets = hs; cdfs = tt }
    loaded u (raise e) hs hc = record { subsets = hs; cdfs = hc }

-- What happens to a policy: a packet's choice, or a refresh.
pub data Event : Type 0 where
  pick_event : ℕ → FlowKey → Event
  refresh_event : Attempt → Event

abbrev pub after_pick : MrcSnapshot → Result ((ℕ × ℕ) × MrcSnapshot) → MrcSnapshot
after_pick t (ok (ev, t')) = t'
after_pick t (raise e) = t

unfoldable pub happen : MrcSnapshot → Event → MrcSnapshot
happen t (pick_event seq flow) = after_pick t (snapshot_pick_ev t seq flow)
happen t (refresh_event a) = refresh_once t a

unfoldable pub history : MrcSnapshot → List Event → MrcSnapshot
history t es = foldl happen t es

happen-IsCached : (t : MrcSnapshot) (e : Event) → IsCached t → IsCached (happen t e)
unfolding happen
happen-IsCached t (refresh_event a) h = refresh_once-IsCached t a h
happen-IsCached t (pick_event seq flow) h = by_result (snapshot_pick_ev t seq flow) refl
  where
    by_result :
        (r : Result ((ℕ × ℕ) × MrcSnapshot))
        → snapshot_pick_ev t seq flow ≡ r
        → IsCached (after_pick t r)
    by_result (ok (ev, t')) e = (snapshot_pick_ev-IsCached t seq flow h e).0
    by_result (raise x) e = h

new_snapshot-IsCached :
    (tenant : Text) (sh : Shape) (paths_per_plane : Option ℕ) (interval : ℕ) (a : Attempt)
    {t : MrcSnapshot}
    → new_snapshot tenant sh paths_per_plane interval a ≡ ok t
    → IsCached t
unfolding new_snapshot
new_snapshot-IsCached tenant sh paths_per_plane interval a {t} h =
    let (paths, _, h1) = >>=-eq-ok (check_paths sh paths_per_plane) _ h in
    let (_, _, h2) = >>=-eq-ok (guard (ltb 0 interval) value_error) _ h1 in
    let made : refresh_once (cold_start tenant sh paths) a ≡ t = ground arith in
    rw (← made)
      (refresh_once-IsCached (cold_start tenant sh paths) a (record { subsets = tt; cdfs = tt }))

-- Whatever packets and refreshes, successful or not, a policy has seen since it was built, its next
-- choice is the one that `HealthAwareMrc` makes on the grid that the policy holds, over the flow's
-- own spines: neither cache ever answers for another flow or for an old grid.
pub snapshot_pick_ev-weighted_ev :
    (tenant : Text) (sh : Shape) (paths_per_plane : Option ℕ) (interval : ℕ) (a : Attempt)
    (es : List Event) (seq : ℕ) (flow : FlowKey) {start : MrcSnapshot} {ev : ℕ × ℕ}
    {next : MrcSnapshot}
    → new_snapshot tenant sh paths_per_plane interval a ≡ ok start
    → snapshot_pick_ev (history start es) seq flow ≡ ok (ev, next)
    → let t = history start es in
      (spines : List ℕ) × (select_spines_for_addrs t.shape.num_spines flow.src_addr flow.dst_addr
          t.paths_per_plane
        ≡ ok spines)
      × (ev ≡ weighted_ev t.shape t.wgrid spines seq flow)
unfolding history
snapshot_pick_ev-weighted_ev tenant sh paths_per_plane interval a es seq flow {start} built picked =
    let cached =
      foldl_inv IsCached happen happen-IsCached es start
        (new_snapshot-IsCached tenant sh paths_per_plane interval a built) in
    (snapshot_pick_ev-IsCached (history start es) seq flow cached picked).1
