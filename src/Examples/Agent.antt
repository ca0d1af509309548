-- ===== src/Examples/Agent.antt =====
-- srv6_mrc/mrc/agent.py on two planes and two spines.
use srv6_mrc_emulator.Common.{
  arith, ◌==◌, Bool, Grid, ℕ, ◌≡◌, refl, List, [], ◌∷◌, Option, none, some, true, ok,
}
use srv6_mrc_emulator.Topo.Defs.{Shape}
use srv6_mrc_emulator.EvState.Defs.{default_config}
use srv6_mrc_emulator.EvState.Table
use srv6_mrc_emulator.Agent.Probes.{IsReady}
use srv6_mrc_emulator.EvState.Table.{EvStateTable, make_setup, new_tenant, find_tenant}
use srv6_mrc_emulator.LossCompute.Ring.{SentWindow}
use srv6_mrc_emulator.LossCompute.Fusion.{new_stats}
use srv6_mrc_emulator.Agent.Sender.{SenderMrcAgent, rotate_window}
use srv6_mrc_emulator.Agent.Calls.{
  Call, sent_call, recv_call, emit_call, tick_call, report_call, take_calls,
}
use srv6_mrc_emulator.Agent.Rotation.{IsWindow, with_window, rotate_window-IsWindow}

abbrev shape : Shape
shape = record { num_planes = 2; num_spines = 2 }

abbrev green_table : EvStateTable
green_table = record {
  setup = make_setup default_config 2 2;
  tenants = ("green", new_tenant (make_setup default_config 2 2)) ∷ [];
}

abbrev agent : SenderMrcAgent
agent = record {
  tenant = "green";
  tenant_id = 1;
  src_id = 0;
  dst_id = 7;
  max_window_skew_ms = 500;
  fusion = record { table = green_table; stats = new_stats };
  sent_ring = record { num_planes = 2; num_paths = 2; capacity = 8; ring = [] };
  current_window_sent = λ plane path. 3;
  current_window_start_ns = 0;
  current_window_id = 65535;
}

abbrev traffic : List Call
traffic =
    sent_call 1 0
    ∷ recv_call 0 1
    ∷ sent_call 1 0
    ∷ emit_call 1 1 true
    ∷ tick_call
    ∷ sent_call 5 0
    ∷ report_call (2 ∷ 3 ∷ []) 900
    ∷ []

abbrev other_process : Option (List (List ℕ))
other_process = some ((0 ∷ 4 ∷ []) ∷ (5 ∷ 6 ∷ 9 ∷ []) ∷ [])

rotate_window-IsWindow_example :
    let first = (rotate_window shape agent none 300).0 in
    let last = rotate_window shape (take_calls shape first traffic) other_process 600 in
    (w : SentWindow) × IsWindow shape traffic other_process 300 600 w
    × (last.0.sent_ring.ring ≡ with_window first.sent_ring w)
    × (last.1 ≡ ok tt)
rotate_window-IsWindow_example =
    rotate_window-IsWindow shape agent none other_process 300 600 traffic refl refl

abbrev some_sends : Grid Bool
some_sends plane path = path == 1

ready : IsReady shape agent (new_tenant (make_setup default_config 2 2))
unfolding Table.find_tenant
ready = record {
  planes = refl;
  paths = refl;
  found = refl;
  tenant_u16 = omega arith;
  src_u16 = omega arith;
  dst_u8 = omega arith;
}
