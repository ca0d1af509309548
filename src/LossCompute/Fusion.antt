-- ===== src/LossCompute/Fusion.antt =====
-- srv6_mrc/mrc/loss_compute.py: `apply_loss_report`. A call that raises keeps what was written before.
use Prim.Native.String.{String}
use srv6_mrc_emulator.Common.{
  ℕ, ◌+◌, ◌*◌, Bool, false, ◌&&◌, ◌||◌, List, [], ◌∷◌, Option, none, some, ltb, ◌==◌, if◌then◌else◌,
  get_elem?, sum_by, same_cell, Result, ok, raise,
}
use srv6_mrc_emulator.Wire.Defs.{PlaneLossRecord, LossReport}
use srv6_mrc_emulator.EvState.Defs.{EvState, is_bad}
use srv6_mrc_emulator.EvState.Table.{EvStateTable, state, record_loss_window}
use srv6_mrc_emulator.LossCompute.Ring.{SentWindow, SentWindowRing, find_closest}

abbrev pub min_sent_for_absent_loss : ℕ
min_sent_for_absent_loss = 2

pub record LossFusionStats : Type 0 where
  pub reports_processed : ℕ
  pub planes_updated : ℕ
  pub planes_skipped_no_data : ℕ
  pub paired_with_sent_window : ℕ
  pub fell_back_to_receiver_expected : ℕ
  pub no_pairing_window_in_ring : ℕ
  pub absent_evs_counted_as_lost : ℕ
  pub absent_check_skipped_low_coverage : ℕ

abbrev pub new_stats : LossFusionStats
new_stats = record {
  reports_processed = 0;
  planes_updated = 0;
  planes_skipped_no_data = 0;
  paired_with_sent_window = 0;
  fell_back_to_receiver_expected = 0;
  no_pairing_window_in_ring = 0;
  absent_evs_counted_as_lost = 0;
  absent_check_skipped_low_coverage = 0;
}

-- What the call writes to: the EV table and the counters.
pub record Fusion : Type 0 where
  pub table : EvStateTable
  pub stats : LossFusionStats

abbrev pub Outcome : Type 0
Outcome = Fusion × Result (Unit {0})

abbrev pub then_run : Outcome → (Fusion → Outcome) → Outcome
then_run (f, ok _) k = k f
then_run (f, raise e) k = (f, raise e)

-- sent[plane][path], or 0 out of range.
unfoldable pub sent_at : List (List ℕ) → ℕ → ℕ → ℕ
sent_at rows plane path = elim (get_elem? rows plane) [
  | none ↦ 0
  | some row ↦ elim (get_elem? row path) [ none ↦ 0 | some n ↦ n ]
]

unfoldable pub denominator : Option SentWindow → PlaneLossRecord → ℕ
denominator none r = 0
denominator (some w) r = sent_at w.sent r.plane_id r.path_id

abbrev pub has_no_data : PlaneLossRecord → Bool
has_no_data r = r.seen == 0 && (r.expected == 0 && r.trimmed == 0)

-- `table.record_loss_window(...)`, then the counters if it returns.
abbrev pub feed : Fusion → (LossFusionStats → LossFusionStats) → Result EvStateTable → Outcome
feed f count (ok t) = (record { table = t; stats = count f.stats }, ok tt)
feed f count (raise e) = (f, raise e)

abbrev pub count_update : LossFusionStats → LossFusionStats
count_update s = record s {
  planes_updated = s.planes_updated + 1;
  paired_with_sent_window = s.paired_with_sent_window + 1;
}

abbrev pub count_absent : LossFusionStats → LossFusionStats
count_absent s = record s { absent_evs_counted_as_lost = s.absent_evs_counted_as_lost + 1 }

abbrev pub count_no_data : Fusion → Fusion
count_no_data f = record f {
  stats = record (f.stats) { planes_skipped_no_data = f.stats.planes_skipped_no_data + 1 };
}

abbrev pub count_fallback : Fusion → Fusion
count_fallback f = record f {
  stats = record (f.stats) {
    fell_back_to_receiver_expected = f.stats.fell_back_to_receiver_expected + 1;
  };
}

-- The body of the loop over the records.
unfoldable pub fuse_record : String → Option SentWindow → Fusion → PlaneLossRecord → Outcome
fuse_record tenant paired f r =
    let sent = denominator paired r in
    if has_no_data r
    then (count_no_data f, ok tt)
    else if sent == 0
    then (count_fallback f, ok tt)
    else feed f count_update
        (record_loss_window f.table tenant r.plane_id r.path_id (r.seen + r.trimmed) sent)

unfoldable pub fuse_records : String → Option SentWindow → Fusion → List PlaneLossRecord → Outcome
fuse_records tenant paired f [] = (f, ok tt)
fuse_records tenant paired f (r ∷ rs) =
    then_run (fuse_record tenant paired f r) (λ f'. fuse_records tenant paired f' rs)

-- (plane, path) in reported
unfoldable pub is_reported : ℕ → ℕ → List PlaneLossRecord → Bool
is_reported plane path [] = false
is_reported plane path (r ∷ rs) =
    same_cell plane path r.plane_id r.path_id || is_reported plane path rs

-- The test `table.state(...) is ASSUMED_BAD`, and the loss of everything sent on the EV if it fails.
abbrev pub lose_unless_bad : String → ℕ → ℕ → ℕ → Fusion → Result EvState → Outcome
lose_unless_bad tenant plane path sender_sent f (raise e) = (f, raise e)
lose_unless_bad tenant plane path sender_sent f (ok st) =
    if is_bad st
    then (f, ok tt)
    else feed f count_absent (record_loss_window f.table tenant plane path 0 sender_sent)

unfoldable pub lose_absent : String → ℕ → List PlaneLossRecord → ℕ → ℕ → ℕ → Fusion → Outcome
lose_absent tenant min_sent planes plane path sender_sent f =
    if ltb sender_sent min_sent
    then (f, ok tt)
    else if is_reported plane path planes
    then (f, ok tt)
    else lose_unless_bad tenant plane path sender_sent f (state f.table tenant plane path)

-- for path, sender_sent in enumerate(row), from `path` on.
unfoldable pub lose_row : String → ℕ → List PlaneLossRecord → ℕ → ℕ → List ℕ → Fusion → Outcome
lose_row tenant min_sent planes plane path [] f = (f, ok tt)
lose_row tenant min_sent planes plane path (n ∷ row) f =
    then_run (lose_absent tenant min_sent planes plane path n f)
      (λ f'. lose_row tenant min_sent planes plane (path + 1) row f')

-- for plane, row in enumerate(paired.sent), from `plane` on.
unfoldable pub lose_rows : String → ℕ → List PlaneLossRecord → ℕ → List (List ℕ) → Fusion → Outcome
lose_rows tenant min_sent planes plane [] f = (f, ok tt)
lose_rows tenant min_sent planes plane (row ∷ rows) f =
    then_run (lose_row tenant min_sent planes plane 0 row f)
      (λ f'. lose_rows tenant min_sent planes (plane + 1) rows f')

unfoldable pub total_sent : List (List ℕ) → ℕ
total_sent rows = sum_by (λ row. sum_by (λ (n : ℕ). n) row) rows

unfoldable pub total_seen : List PlaneLossRecord → ℕ
total_seen planes = sum_by (λ r. r.seen + r.trimmed) planes

-- `total_seen < MIN_COVERAGE_FOR_ABSENT_LOSS * total_sent`, where the constant is 0.5.
abbrev pub low_coverage : List PlaneLossRecord → SentWindow → Bool
low_coverage planes w = total_sent w.sent == 0 || ltb (2 * total_seen planes) (total_sent w.sent)

abbrev pub count_low_coverage : Fusion → Fusion
count_low_coverage f = record f {
  stats = record (f.stats) {
    absent_check_skipped_low_coverage = f.stats.absent_check_skipped_low_coverage + 1;
  };
}

-- What follows the loop over the records.
unfoldable pub absent_check :
    String → ℕ → List PlaneLossRecord → Option SentWindow → Fusion → Outcome
absent_check tenant min_sent planes none f = (f, ok tt)
absent_check tenant min_sent planes (some w) f =
    if low_coverage planes w
    then (count_low_coverage f, ok tt)
    else lose_rows tenant min_sent planes 0 w.sent f

abbrev pub count_report : Option SentWindow → Fusion → Fusion
count_report none f = record f {
  stats = record (f.stats) {
    reports_processed = f.stats.reports_processed + 1;
    no_pairing_window_in_ring = f.stats.no_pairing_window_in_ring + 1;
  };
}
count_report (some w) f = record f {
  stats = record (f.stats) { reports_processed = f.stats.reports_processed + 1 };
}

abbrev pub fuse_nonempty : String → ℕ → List PlaneLossRecord → Option SentWindow → Fusion → Outcome
fuse_nonempty tenant min_sent planes paired f =
    then_run (fuse_records tenant paired (count_report paired f) planes)
      (λ f'. absent_check tenant min_sent planes paired f')

unfoldable pub apply_loss_report :
    String → LossReport → SentWindowRing → ℕ → ℕ → ℕ → Fusion → Outcome
apply_loss_report tenant report sent_ring received_at_ns max_window_skew_ns min_sent f =
    elim report.planes [
      | [] ↦ (f, ok tt)
      | r ∷ rs ↦
          fuse_nonempty tenant min_sent (r ∷ rs)
            (find_closest sent_ring received_at_ns max_window_skew_ns) f
    ]
