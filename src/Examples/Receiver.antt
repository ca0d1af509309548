-- ===== src/Examples/Receiver.antt =====
-- srv6_mrc/mrc/agent.py on a receiver of two planes and two paths.
use srv6_mrc_emulator.Common.{◌<◌, ◌≤◌, ◌≡◌, refl, [], ◌∷◌, ◌++◌, map, some, arith, ok, length}
use srv6_mrc_emulator.Common.Dict
use srv6_mrc_emulator.Wire.Defs as Wire
use srv6_mrc_emulator.Wire.Defs.{Bytes, Nack, LossReport, decode_loss_report}
use srv6_mrc_emulator.Wire.Reports.{cap_trimmed}
use srv6_mrc_emulator.LossWindow.Defs
use srv6_mrc_emulator.LossWindow.Defs.{
  LossWindowTable, record_trimmed as table_trimmed, snapshot_and_reset,
}
use srv6_mrc_emulator.Trim.Defs.{NackListener, new_listener}
use srv6_mrc_emulator.Agent.Receiver.{
  ReceiverMrcAgent, FlowId, flow_discrete, record_data, record_trimmed, emit_report,
}
use srv6_mrc_emulator.Agent.Reports.{emit_report-last_ev}

abbrev receiver : ReceiverMrcAgent
receiver = record {
  my_id = 7;
  loss_table = record { num_planes = 2; num_paths = 2; flows = [] };
  senders = [];
  trimmed_seen = 0;
  nacks_sent = 0;
  nack_send_errors = 0;
}

abbrev flow : FlowId
flow = (1, (3, 7))

abbrev after_packet : ReceiverMrcAgent
after_packet = (record_data receiver flow 1 0 55).0

after_packet-accepted : record_data receiver flow 1 0 55 ≡ (after_packet, ok tt)
unfolding record_data Defs.record_packet
after_packet-accepted = refl

fresh_id : (Defs.window flow_discrete receiver.loss_table flow).next_window_id ≤ 0xFFFF
unfolding Dict.find
fresh_id = omega arith

emit_report-last_ev_example :
    (r : LossReport) × (bytes : Bytes) × ((snapshot_and_reset flow_discrete after_packet.loss_table
        flow).1
      ≡ ok r)
    × (0 < length r.planes)
    × ((emit_report after_packet flow).1
        ≡ ok (some (record { plane = 1; path = 0; dst_leaf = 3; payload = bytes })))
    × (decode_loss_report (bytes ++ [])
        ≡ ok (record { window_id = r.window_id; planes = map cap_trimmed r.planes }))
emit_report-last_ev_example =
    emit_report-last_ev receiver after_packet 1 3 7 1 0 55 [] after_packet-accepted (omega arith)
      (omega arith) (omega arith) fresh_id

abbrev trimmed_table : LossWindowTable FlowId
trimmed_table = record receiver.loss_table {
  flows = (flow, Defs.update Defs.new_window 0 1 (Defs.count_trimmed)) ∷ [];
}

abbrev nack : Nack
nack = record { plane_id = 0; path_id = 1; tenant_id = 1; src_id = 3; dst_id = 7; seq = 90 }

abbrev listener : NackListener
listener =
    new_listener 2
      (record { trimmed = 0; dropped = 0; nacks_received = 0; nacks_ignored = 0; retransmits = 0 })
