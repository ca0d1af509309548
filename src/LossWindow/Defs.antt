-- ===== src/LossWindow/Defs.antt =====
-- srv6_mrc/mrc/loss_window.py: `LossWindowTable`. A sequence number -1, the code's mark for "no packet
-- seen yet", is `none`.
use srv6_mrc_emulator.Common.{
  ℕ, ◌+◌, ◌-◌, ◌%◌, Bool, true, false, ◌&&◌, List, [], ◌∷◌, map, Option, none, some, ltb, leb, ◌==◌,
  if◌then◌else◌, min, Grid, set_cell, cells, value_error, Result, ok, raise, ◌>>=◌, ◌>>◌, guard,
}
use srv6_mrc_emulator.Common.Dict.{find, put, remove}
use srv6_mrc_emulator.Wire.Defs.{
  PlaneLossRecord, LossReport, make_plane_loss_record, make_loss_report,
}

pub record EvCounters : Type 0 where
  pub seen : ℕ
  pub min_seq : Option ℕ
  pub max_seq : Option ℕ
  pub max_gap : ℕ
  pub last_seq : Option ℕ
  pub trimmed : ℕ

abbrev pub new_counters : EvCounters
new_counters = record {
  seen = 0;
  min_seq = none;
  max_seq = none;
  max_gap = 0;
  last_seq = none;
  trimmed = 0;
}

pub record FlowWindow : Type 0 where
  pub next_window_id : ℕ
  pub evs : Grid EvCounters

-- `reset`: new counters, the window id stays.
abbrev pub reset : FlowWindow → FlowWindow
reset w = record w { evs = λ plane path. new_counters }

abbrev pub new_window : FlowWindow
new_window = record { next_window_id = 0; evs = λ plane path. new_counters }

-- `min_seq < 0 or seq < min_seq`
abbrev pub lowers : ℕ → Option ℕ → Bool
lowers seq none = true
lowers seq (some m) = ltb seq m

-- `seq > max_seq`
abbrev pub raises : ℕ → Option ℕ → Bool
raises seq none = true
raises seq (some m) = ltb m seq

-- A jump backwards is negative in the code and 0 here: neither exceeds `max_gap`.
abbrev pub widen_gap : ℕ → Option ℕ → ℕ → ℕ
widen_gap seq none gap = gap
widen_gap seq (some last) gap = if ltb gap (seq - last) then seq - last else gap

unfoldable pub count_packet : ℕ → EvCounters → EvCounters
count_packet seq c = record {
  seen = c.seen + 1;
  min_seq = if lowers seq c.min_seq then some seq else c.min_seq;
  max_seq = if raises seq c.max_seq then some seq else c.max_seq;
  max_gap = widen_gap seq c.last_seq c.max_gap;
  last_seq = some seq;
  trimmed = c.trimmed;
}

unfoldable pub count_trimmed : EvCounters → EvCounters
count_trimmed c = record c { trimmed = c.trimmed + 1 }

abbrev pub update : FlowWindow → ℕ → ℕ → (EvCounters → EvCounters) → FlowWindow
update w plane path f = record w { evs = set_cell w.evs plane path (f (w.evs plane path)) }

abbrev pub or_new : Option FlowWindow → FlowWindow
or_new none = new_window
or_new (some w) = w

-- max_seq - min_seq + 1, or 0 before the first packet.
unfoldable pub expected_local : Option ℕ → Option ℕ → ℕ
expected_local none hi = 0
expected_local (some lo) none = 0
expected_local (some lo) (some hi) = hi + 1 - lo

abbrev pub u32_max : ℕ
u32_max = 0xFFFFFFFF

abbrev pub is_active : EvCounters → Bool
is_active c = elim (c.seen == 0 && c.trimmed == 0) [ true ↦ false | false ↦ true ]

unfoldable pub loss_record : ℕ × ℕ → EvCounters → PlaneLossRecord
loss_record (plane, path) c = record {
  plane_id = plane;
  path_id = path;
  seen = min c.seen u32_max;
  expected = min (expected_local c.min_seq c.max_seq) u32_max;
  max_gap = min c.max_gap u32_max;
  trimmed = min c.trimmed u32_max;
}

-- The loops of `snapshot_and_reset`: one record for each active EV, in (plane, path) order.
unfoldable pub collect : Grid EvCounters → List (ℕ × ℕ) → Result (List PlaneLossRecord)
collect evs [] = ok []
collect evs ((plane, path) ∷ cs) =
    if is_active (evs plane path)
    then (do
      r ← make_plane_loss_record (loss_record (plane, path) (evs plane path))
      rs ← collect evs cs
      ok (r ∷ rs))
    else collect evs cs

pub record LossWindowTable (K : Type 0) : Type 0 where
  pub num_planes : ℕ
  pub num_paths : ℕ
  pub flows : List (K × FlowWindow)

unfoldable pub new_table : (K : Type 0) → ℕ → ℕ → Result (LossWindowTable K)
new_table K num_planes num_paths = do
  guard (ltb 0 num_planes) value_error
  guard (ltb 0 num_paths) value_error
  ok (record { num_planes = num_planes; num_paths = num_paths; flows = [] })

module _ {K : Type 0} (dec : Discrete K) where
  abbrev pub window : LossWindowTable K → K → FlowWindow
  window t flow_key = or_new (find dec flow_key t.flows)

  unfoldable pub record_packet : LossWindowTable K → K → ℕ → ℕ → ℕ → Result (LossWindowTable K)
  record_packet t flow_key plane path seq = do
    guard (ltb plane t.num_planes) value_error
    guard (ltb path t.num_paths) value_error
    guard (leb seq u32_max) value_error
    ok (record t {
      flows = put dec flow_key (update (window t flow_key) plane path (count_packet seq)) t.flows;
    })

  unfoldable pub record_trimmed : LossWindowTable K → K → ℕ → ℕ → Result (LossWindowTable K)
  record_trimmed t flow_key plane path = do
    guard (ltb plane t.num_planes) value_error
    guard (ltb path t.num_paths) value_error
    ok (record t {
      flows = put dec flow_key (update (window t flow_key) plane path count_trimmed) t.flows;
    })

  -- The window id advances before the records are built; the counters are reset after.
  abbrev pub close_window :
      LossWindowTable K
      → K
      → FlowWindow
      → Result (List PlaneLossRecord)
      → LossWindowTable K × Result LossReport
  close_window t flow_key w (ok records) = (
    record t {
      flows =
          put dec flow_key (reset (record w { next_window_id = (w.next_window_id + 1) % 65536 }))
            t.flows;
    },
    make_loss_report (record { window_id = w.next_window_id; planes = records }),
  )
  close_window t flow_key w (raise e) = (
    record t {
      flows =
          put dec flow_key (record w { next_window_id = (w.next_window_id + 1) % 65536 }) t.flows;
    },
    raise e,
  )

  unfoldable pub snapshot_and_reset : LossWindowTable K → K → LossWindowTable K × Result LossReport
  snapshot_and_reset t flow_key =
      let w = window t flow_key in
      close_window t flow_key w (collect w.evs (cells t.num_planes t.num_paths))

  unfoldable pub known_flows : LossWindowTable K → List K
  known_flows t = map (λ e. e.0) t.flows

  unfoldable pub forget : LossWindowTable K → K → LossWindowTable K
  forget t flow_key = record t { flows = remove dec flow_key t.flows }
