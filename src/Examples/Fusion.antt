-- ===== src/Examples/Fusion.antt =====
-- srv6_mrc/mrc/loss_compute.py on a sender of one plane and two paths.
use srv6_mrc_emulator.Common
use srv6_mrc_emulator.Common.{
  ℕ, ◌+◌, ◌*◌, ◌≤◌, ◌<◌, ◌≡◌, ◌≢◌, ◌↔◌, refl, List, [], ◌∷◌, ◌++◌, Option, none, some, arith, All,
  Result, ok, length, map,
}
use srv6_mrc_emulator.Wire.Defs.{PlaneLossRecord, LossReport}
use srv6_mrc_emulator.EvState.Defs as Ev
use srv6_mrc_emulator.EvState.Defs.{TenantEvs, default_config}
use srv6_mrc_emulator.EvState.Table
use srv6_mrc_emulator.EvState.Table.{EvStateTable, make_setup, new_tenant, find_tenant}
use srv6_mrc_emulator.EvState.Run.{Inv, run-Inv, run}
use srv6_mrc_emulator.LossCompute.Ring
use srv6_mrc_emulator.LossCompute.Ring.{SentWindow, SentWindowRing, find_closest, skew}
use srv6_mrc_emulator.LossCompute.Fusion as Fuse
use srv6_mrc_emulator.LossCompute.Fusion.{Fusion, new_stats, apply_loss_report, fuse_records}
use srv6_mrc_emulator.LossCompute.Effects
use srv6_mrc_emulator.LossCompute.Independence
use srv6_mrc_emulator.LossCompute.Independence.{with_expected, HasData, handled}

program : Unit {0}
unfolding Common.cells Ring.midpoint_ns Ring.closest_from Ring.find_closest Ring.push
    Ring.check_rows Fuse.sent_at Fuse.denominator Fuse.fuse_record Fuse.fuse_records
    Fuse.is_reported Fuse.lose_absent Fuse.lose_row Fuse.lose_rows Fuse.total_sent Fuse.total_seen
    Fuse.absent_check Fuse.apply_loss_report Ev.state_weight Ev.resolve_min_active Ev.weight_total
    Ev.weights_of Ev.rebuild_weights Ev.transition_fields Ev.transition Ev.usable_after
    Ev.next_level Ev.demote_fields Ev.try_demote Ev.loss_window Table.new_tenant Table.find_tenant
    Table.put_tenant Table.check_tenant Table.check_ev Table.record_loss_window Table.state run
program = tt

abbrev early : SentWindow
early = record { start_ns = 0; end_ns = 100; sent = (8 ∷ 8 ∷ []) ∷ []; window_id = 0 }

abbrev late : SentWindow
late = record { start_ns = 100; end_ns = 200; sent = (10 ∷ 4 ∷ []) ∷ []; window_id = 1 }

abbrev ring : SentWindowRing
ring = record { num_planes = 1; num_paths = 2; capacity = 8; ring = early ∷ late ∷ [] }

paired : find_closest ring 170 50 ≡ some late
unfolding program
paired = refl

abbrev seen_record : PlaneLossRecord
seen_record = record { plane_id = 0; path_id = 0; seen = 9; expected = 9; max_gap = 1; trimmed = 0 }

abbrev report : LossReport
report = record { window_id = 3; planes = seen_record ∷ [] }

abbrev start : TenantEvs
start = new_tenant (make_setup default_config 1 2)

abbrev fusion : Fusion
fusion = record {
  table = record { setup = make_setup default_config 1 2; tenants = ("red", start) ∷ [] };
  stats = new_stats;
}

-- One record is an update, and the silent EV is a full loss.
absent_counted :
    (apply_loss_report "red" report ring 170 50 2 fusion).0.stats.absent_evs_counted_as_lost ≡ 1
unfolding program
absent_counted = refl

fuse_records_ends : (fuse_records "red" (some late) fusion report.planes).1 ≡ ok tt
unfolding program
fuse_records_ends = refl

start_found : find_tenant "red" fusion.table.tenants ≡ some start
unfolding program
start_found = refl

start-Inv : Inv fusion.table.setup start
unfolding program
start-Inv = run-Inv default_config 1 2 [] (omega arith) (omega arith)

records-HasData : All HasData report.planes
records-HasData = (omega arith, tt)

apply_loss_report-with_expected_example :
    apply_loss_report "red"
      (record { window_id = 3; planes = with_expected (λ r. 50) report.planes })
      ring
      170
      50
      2
      fusion
    ≡ apply_loss_report "red"
        (record { window_id = 3; planes = report.planes })
        ring
        170
        50
        2
        fusion
apply_loss_report-with_expected_example =
    Independence.apply_loss_report-with_expected (λ r. 50) "red" 3 report.planes ring 170 50 2
      fusion records-HasData
