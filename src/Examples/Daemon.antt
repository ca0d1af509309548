-- ===== src/Examples/Daemon.antt =====
-- srv6_mrc/mrc/daemon.py on a host with two flows.
use native.Mathlib.Decide.{ℕ_discrete}
use srv6_mrc_emulator.Common.{
  ℕ, ◌≡◌, ◌≤◌, ◌+◌, refl, arith, map, List, [], ◌∷◌, none, some, true, ok,
}
use srv6_mrc_emulator.Common.Dict.{find, put}
use srv6_mrc_emulator.Wire.Struct.{pack, be_bytes}
use srv6_mrc_emulator.Wire.Defs.{
  Bytes, PlaneLossRecord, encode_probe, check_u8, check_u16, encode_loss_report, encode_records,
  encode_record, any_trimmed,
}
use srv6_mrc_emulator.Wire.Reports.{cap_trimmed}
use srv6_mrc_emulator.EvState.Defs.{default_config}
use srv6_mrc_emulator.EvState.Table.{
  EvStateTable, new_table, make_setup, new_tenant, check_tenant, find_tenant,
}
use srv6_mrc_emulator.LossCompute.Ring.{new_ring}
use srv6_mrc_emulator.LossCompute.Fusion.{new_stats}
use srv6_mrc_emulator.Topo.Text.{codes, hex, hex_from, hex_02}
use srv6_mrc_emulator.Topo.Addresses
use srv6_mrc_emulator.Topo.Addresses.{
  Fabric, inner_addr, green_anycast_addr, yellow_anycast_addr, tenant_id, tenant_id_from,
}
use srv6_mrc_emulator.Agent.Sender.{SenderMrcAgent, emit_probe, record_probe_recv, handle_decoded}
use srv6_mrc_emulator.Daemon.Defs.{
  DaemonFlow, MrcDaemon, Received, new_daemon, add_flows, new_agent, new_counters, dispatch,
  dispatch_all,
}
use srv6_mrc_emulator.Daemon.Counters.{IsTallied, outcomes, dispatch_all-IsTallied}
use srv6_mrc_emulator.Daemon.Routing.{Serves}
use srv6_mrc_emulator.Daemon.Delivery.{
  IsServed, IsReplaced, IsReport, dispatch-emit_probe, dispatch-report_from,
  dispatch-report_from_high,
}
use srv6_mrc_emulator.Daemon.Setup.{dispatch_all-IsServed}

abbrev fabric : Fabric
fabric = record {
  shape = record { num_planes = 2; num_spines = 2 };
  num_leaves = 20;
  tenants = "green" ∷ [];
}

abbrev table : EvStateTable
table = record {
  setup = make_setup default_config 2 2;
  tenants = ("green", new_tenant (make_setup default_config 2 2)) ∷ [];
}

abbrev agent_to : ℕ → SenderMrcAgent
agent_to dst_id = record {
  tenant = "green";
  tenant_id = 1;
  src_id = 0;
  dst_id = dst_id;
  max_window_skew_ms = 500;
  fusion = record { table = table; stats = new_stats };
  sent_ring = record { num_planes = 2; num_paths = 2; capacity = 16; ring = [] };
  current_window_sent = λ plane path. 0;
  current_window_start_ns = 9;
  current_window_id = 0;
}

abbrev flows : List DaemonFlow
flows = ("green", 7) ∷ ("green", 18) ∷ []

abbrev daemon : MrcDaemon
daemon = record {
  src_id = 0;
  agents = (("green", 7), agent_to 7) ∷ (("green", 18), agent_to 18) ∷ [];
  demux = (7, ("green", 7)) ∷ (18, ("green", 18)) ∷ [];
  counters = new_counters;
  rx_gap = record { b0 = 0; b1 = 0; b2 = 0; b3 = 0; b4 = 0 };
  rx_backlog = record { b0 = 0; b1 = 0; b2 = 0; b3 = 0; b4 = 0 };
  rx_dwell = record {
    timed = record { b0 = 0; b1 = 0; b2 = 0; b3 = 0; b4 = 0 };
    negative = 0;
    no_timestamp = 0;
  };
  last_recv_ns = none;
}

started : new_daemon fabric default_config 500 9 0 flows ≡ ok daemon
unfolding new_daemon add_flows new_table new_agent check_tenant find_tenant tenant_id tenant_id_from
    new_ring put ℕ_discrete
started = refl

abbrev probe_back : Received
probe_back = record {
  payload = 0xA5 ∷ 4 ∷ 1 ∷ 0 ∷ 0 ∷ 1 ∷ 0 ∷ 0 ∷ 7 ∷ 0 ∷ [];
  peer_addr = some (codes "2001:db8:bbbb::ffff");
  now_ns = 5000000;
  kernel_rx = some (100, 70);
  inq_bytes = some 700;
  handled_ns = 0;
}

abbrev records : List PlaneLossRecord
records =
    record { plane_id = 1; path_id = 0; seen = 5; expected = 9; max_gap = 3; trimmed = 0 } ∷ []

abbrev report_from : Bytes → Received
report_from addr = record {
  payload =
      0xA7 ∷ 2 ∷ 0 ∷ 3 ∷ 0 ∷ 1 ∷ 0 ∷ 0 ∷ 1 ∷ 0 ∷ 0 ∷ 0 ∷ 0 ∷ 0 ∷ 0 ∷ 5 ∷ 0 ∷ 0 ∷ 0 ∷ 9 ∷ 0 ∷ 0 ∷ 0
      ∷ 3 ∷ [];
  peer_addr = some addr;
  now_ns = 7000000;
  kernel_rx = none;
  inq_bytes = none;
  handled_ns = 8;
}

abbrev packets : List Received
packets =
    probe_back ∷ report_from (codes "2001:db8:bbbb:07::2") ∷ report_from (codes "nowhere") ∷ []

dispatch_all-IsTallied_example :
    IsTallied (dispatch_all fabric daemon packets)
    × ((dispatch_all fabric daemon packets).counters.packets_received ≡ 3)
    × (3 ≤ outcomes (dispatch_all fabric daemon packets).counters + 2)
dispatch_all-IsTallied_example =
    dispatch_all-IsTallied fabric default_config 500 9 0 flows daemon packets started

dispatch_all-IsServed_example :
    (flow : DaemonFlow) × ((a : SenderMrcAgent) × IsServed
        (dispatch_all fabric daemon packets)
        18
        flow
        a
      × (flow.1 ≡ 18)
      × Serves flow a)
dispatch_all-IsServed_example =
    dispatch_all-IsServed fabric default_config 500 9 0 flows daemon packets 18 started
      (1, ("green", refl))

serves_7 : IsServed daemon 7 ("green", 7) (agent_to 7)
unfolding find ℕ_discrete
serves_7 = record { named = refl; stored = refl }

probe_sent : (emit_probe (agent_to 7) 1 0 true).1 ≡ some probe_back.payload
unfolding emit_probe encode_probe check_u8 check_u16 pack be_bytes
probe_sent = refl

dispatch-emit_probe_example :
    IsReplaced daemon
      (dispatch fabric daemon probe_back)
      ("green", 7)
      (record_probe_recv (agent_to 7) 1 0)
    × ((dispatch fabric daemon probe_back).counters.probes_dispatched ≡ 1)
dispatch-emit_probe_example =
    dispatch-emit_probe fabric daemon probe_back (agent_to 7) (agent_to 7) ("green", 7) 1 0
      probe_sent serves_7

low-IsReport : IsReport fabric (report_from (codes "2001:db8:bbbb:07::2")) "green" 7 3 records
unfolding inner_addr Addresses.check_tenant Addresses.check_host green_anycast_addr
    yellow_anycast_addr hex_02 hex hex_from encode_loss_report check_u16 encode_records
    encode_record any_trimmed pack be_bytes
low-IsReport = record {
  addr = codes "2001:db8:bbbb:07::2";
  small = omega arith;
  from = refl;
  peer = refl;
  valid = (
    record {
      plane_u8 = omega arith;
      path_u8 = omega arith;
      seen_u32 = omega arith;
      expected_u32 = omega arith;
      max_gap_u32 = omega arith;
      trimmed_u32 = omega arith;
    },
    tt,
  );
  encoded = refl;
}

dispatch-report_from_example :
    IsReplaced daemon
      (dispatch fabric daemon (report_from (codes "2001:db8:bbbb:07::2")))
      ("green", 7)
      (handle_decoded
        (agent_to 7)
        8
        (ok (record { window_id = 3; planes = map cap_trimmed records }))).0
dispatch-report_from_example =
    dispatch-report_from fabric daemon (report_from (codes "2001:db8:bbbb:07::2")) "green" 7 3
      records low-IsReport ("green", 7) (agent_to 7) (omega arith) serves_7

high-IsReport : IsReport fabric (report_from (codes "2001:db8:bbbb:12::2")) "green" 18 3 records
unfolding inner_addr Addresses.check_tenant Addresses.check_host green_anycast_addr
    yellow_anycast_addr hex_02 hex hex_from encode_loss_report check_u16 encode_records
    encode_record any_trimmed pack be_bytes
high-IsReport = record {
  addr = codes "2001:db8:bbbb:12::2";
  small = omega arith;
  from = refl;
  peer = refl;
  valid = low-IsReport.valid;
  encoded = refl;
}

dispatch-report_from_high_example :
    let after = dispatch fabric daemon (report_from (codes "2001:db8:bbbb:12::2")) in
    (after.agents ≡ daemon.agents)
    × (after.counters.loss_reports_no_peer ≡ 1)
    × (after.counters.loss_reports_dispatched ≡ 0)
dispatch-report_from_high_example =
    dispatch-report_from_high fabric daemon (report_from (codes "2001:db8:bbbb:12::2")) "green" 18 3
      records high-IsReport (omega arith)
