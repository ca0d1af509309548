-- ===== src/Examples/Loss.antt =====
-- srv6_mrc/mrc/loss_window.py and srv6_mrc/mrc/loss_compute.py on a receiver and a sender of two planes
-- and two paths. Flows are told apart by a number here.
use native.Mathlib.Decide.{ℕ_discrete}
use srv6_mrc_emulator.Common
use srv6_mrc_emulator.Common.{
  ℕ, ◌+◌, ◌*◌, ◌%◌, ◌≤◌, ◌<◌, ◌≡◌, ◌≢◌, ◌↔◌, List, [], ◌∷◌, ◌++◌, none, some, arith, All, Result,
  ok, length, map,
}
use srv6_mrc_emulator.Common.Dict
use srv6_mrc_emulator.Wire.Defs
use srv6_mrc_emulator.Wire.Defs.{
  Bytes, PlaneLossRecord, LossReport, encode_loss_report, decode_loss_report,
}
use srv6_mrc_emulator.Wire.Reports.{cap_trimmed}
use srv6_mrc_emulator.LossWindow.Defs as Windows
use srv6_mrc_emulator.LossWindow.Defs.{
  LossWindowTable, FlowWindow, new_counters, window, snapshot_and_reset,
}
use srv6_mrc_emulator.LossWindow.Counting.{Arrival, packet, trim}
use srv6_mrc_emulator.LossWindow.Arrivals
use srv6_mrc_emulator.LossWindow.Arrivals.{receive, received, arrivals_for, expected_record}
use srv6_mrc_emulator.LossWindow.OnWire

program : Unit {0}
unfolding Common.cells Dict.find Dict.put Dict.remove Windows.count_packet Windows.count_trimmed
    Windows.expected_local Windows.loss_record Windows.collect Windows.new_table
    Windows.record_packet Windows.record_trimmed Windows.snapshot_and_reset receive received
    arrivals_for expected_record Defs.make_plane_loss_record Defs.make_loss_report Defs.check_u8
    Defs.check_u16 Defs.check_u32 ℕ_discrete
program = tt

abbrev table : LossWindowTable ℕ
table = record { num_planes = 2; num_paths = 2; flows = [] }

abbrev arrivals : List (ℕ × Arrival)
arrivals =
    (7, packet 0 1 10)
    ∷ (8, packet 0 1 99)
    ∷ (7, packet 0 1 14)
    ∷ (7, trim 0 1)
    ∷ (7, packet 0 1 12)
    ∷ (7, packet 2 0 1)
    ∷ []

abbrev seen_record : PlaneLossRecord
seen_record = record { plane_id = 0; path_id = 1; seen = 3; expected = 5; max_gap = 4; trimmed = 1 }

abbrev report : LossReport
report = record { window_id = 0; planes = seen_record ∷ [] }

seven_eight : ◌≢◌ {A = ℕ} 7 8
seven_eight e = absurd (omega arith)

-- Two packets of flow 7 and one of flow 8, in windows 65535 and 2.
abbrev busy : LossWindowTable ℕ
busy = record table {
  flows =
      (
        7,
        record {
          next_window_id = 65535;
          evs = λ p q. record new_counters {
            seen = 2;
            min_seq = some 4;
            max_seq = some 5;
            last_seq = some 5;
          };
        },
      )
      ∷ (8, record { next_window_id = 2; evs = λ p q. record new_counters { seen = 1 } })
      ∷ [];
}

busy_in_range : (window ℕ_discrete busy 7).next_window_id ≤ 0xFFFF
unfolding program
busy_in_range = omega arith

snapshot-on_wire_example :
    (r : LossReport) × (bytes : Bytes) × ((snapshot_and_reset ℕ_discrete busy 7).1 ≡ ok r)
    × (encode_loss_report r.window_id r.planes ≡ ok bytes)
    × (decode_loss_report (bytes ++ [])
        ≡ ok (record { window_id = r.window_id; planes = map cap_trimmed r.planes }))
snapshot-on_wire_example =
    OnWire.snapshot-on_wire ℕ_discrete busy 7 [] (omega arith) (omega arith) (omega arith)
      busy_in_range
