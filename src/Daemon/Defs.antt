-- ===== src/Daemon/Defs.antt =====
-- srv6_mrc/mrc/daemon.py: `MrcDaemon`, its construction and its dispatcher. What the socket, the kernel and
-- the clocks answer is part of a received packet.
use Prim.Native.String.{String}
use native.Mathlib.Decide.{ℕ_discrete}
use Prim.Derive.{×_discrete}
use srv6_mrc_emulator.Common.{
  ℕ, ◌+◌, ◌-◌, Bool, true, false, not, ◌&&◌, List, [], ◌∷◌, Option, none, some, ltb, leb, ◌==◌,
  if◌then◌else◌, Result, ok, raise, guard, ◌>>◌, ◌>>=◌, value_error, string_discrete, foldl,
}
use srv6_mrc_emulator.Common.Dict.{find, put}
use srv6_mrc_emulator.Wire.Defs.{Bytes, Probe, decode_probe, magic_probe, magic_loss_report}
use srv6_mrc_emulator.EvState.Defs.{EvStateConfig}
use srv6_mrc_emulator.EvState.Table.{EvStateTable, new_table, check_tenant}
use srv6_mrc_emulator.LossCompute.Ring.{new_ring}
use srv6_mrc_emulator.LossCompute.Fusion.{new_stats}
use srv6_mrc_emulator.Topo.Defs.{Text}
use srv6_mrc_emulator.Topo.Addresses.{
  Fabric, tenant_id, host_id_from_inner_addr, probe_ev_from_inner_dst,
}
use srv6_mrc_emulator.Agent.Sender.{SenderMrcAgent, record_probe_recv, handle_loss_report}

-- (tenant, dst_id)
abbrev pub DaemonFlow : Type 0
DaemonFlow = String × ℕ

abbrev pub flow_discrete : Discrete DaemonFlow
flow_discrete = ×_discrete string_discrete ℕ_discrete

pub record DispatchCounters : Type 0 where
  pub packets_received : ℕ
  pub probes_dispatched : ℕ
  pub probes_no_flow : ℕ
  pub probes_decode_failed : ℕ
  pub probes_ev_mismatch : ℕ
  pub loss_reports_dispatched : ℕ
  pub loss_reports_no_peer : ℕ
  pub unknown_magic : ℕ

-- Five buckets with four bounds: a duration below the first of them goes into the first, and so on.
pub record Buckets : Type 0 where
  pub b0 : ℕ
  pub b1 : ℕ
  pub b2 : ℕ
  pub b3 : ℕ
  pub b4 : ℕ

-- The kernel's time stamp may be later than the reading of the clock, or absent.
pub record DwellBuckets : Type 0 where
  pub timed : Buckets
  pub negative : ℕ
  pub no_timestamp : ℕ

-- The agents are objects that two dictionaries share: `_demux` refers to them by their flows.
pub record MrcDaemon : Type 0 where
  pub src_id : ℕ
  pub agents : List (DaemonFlow × SenderMrcAgent)
  pub demux : List (ℕ × DaemonFlow)
  pub counters : DispatchCounters
  pub rx_gap : Buckets
  pub rx_backlog : Buckets
  pub rx_dwell : DwellBuckets
  pub last_recv_ns : Option ℕ

-- A packet from the socket: its payload, `peer[0]` if the peer is a tuple, the monotonic clock after it, the
-- kernel's stamp with the wall clock after it if there is one, the bytes that wait in the socket if the system
-- tells, and the clock that the handler of a loss report reads.
pub record Received : Type 0 where
  pub payload : Bytes
  pub peer_addr : Option Text
  pub now_ns : ℕ
  pub kernel_rx : Option (ℕ × ℕ)
  pub inq_bytes : Option ℕ
  pub handled_ns : ℕ

abbrev no_buckets : Buckets
no_buckets = record { b0 = 0; b1 = 0; b2 = 0; b3 = 0; b4 = 0 }

abbrev pub new_counters : DispatchCounters
new_counters = record {
  packets_received = 0;
  probes_dispatched = 0;
  probes_no_flow = 0;
  probes_decode_failed = 0;
  probes_ev_mismatch = 0;
  loss_reports_dispatched = 0;
  loss_reports_no_peer = 0;
  unknown_magic = 0;
}

-- SenderMrcAgent.__init__, on a table for the flow's tenant alone.
unfoldable pub new_agent : Fabric → String → ℕ → ℕ → EvStateTable → ℕ → ℕ → Result SenderMrcAgent
new_agent f tenant src_id dst_id table max_window_skew_ms clock_ns = do
  guard (table.setup.num_planes == f.shape.num_planes) value_error
  evs ← check_tenant table tenant
  tid ← tenant_id f tenant
  ring ← new_ring f.shape.num_planes f.shape.num_spines 16
  ok (record {
    tenant = tenant;
    tenant_id = tid;
    src_id = src_id;
    dst_id = dst_id;
    max_window_skew_ms = max_window_skew_ms;
    fusion = record { table = table; stats = new_stats };
    sent_ring = ring;
    current_window_sent = λ plane path. 0;
    current_window_start_ns = clock_ns;
    current_window_id = 0;
  })

abbrev pub with_agent : MrcDaemon → DaemonFlow → SenderMrcAgent → MrcDaemon
with_agent d flow a = record d { agents = put flow_discrete flow a d.agents }

-- The loop over the flows: a later flow to the same host takes over its entry of `_demux`.
unfoldable pub add_flows :
    Fabric → EvStateConfig → ℕ → ℕ → List DaemonFlow → MrcDaemon → Result MrcDaemon
add_flows f cfg skew_ms clock_ns [] d = ok d
add_flows f cfg skew_ms clock_ns ((tenant, dst_id) ∷ flows) d = do
  table ← new_table (tenant ∷ []) f.shape.num_planes f.shape.num_spines cfg
  agent ← new_agent f tenant d.src_id dst_id table skew_ms clock_ns
  let added = with_agent d (tenant, dst_id) agent
  add_flows f cfg skew_ms clock_ns flows
      (record added { demux = put ℕ_discrete dst_id (tenant, dst_id) d.demux })

abbrev pub is_empty {ℓ} : {A : Type ℓ} → List A → Bool
is_empty [] = true
is_empty (x ∷ xs) = false

unfoldable pub new_daemon : Fabric → EvStateConfig → ℕ → ℕ → ℕ → List DaemonFlow → Result MrcDaemon
new_daemon f cfg skew_ms clock_ns src_id flows = do
  guard (not (is_empty flows)) value_error
  add_flows f cfg skew_ms clock_ns flows (record {
    src_id = src_id;
    agents = [];
    demux = [];
    counters = new_counters;
    rx_gap = no_buckets;
    rx_backlog = no_buckets;
    rx_dwell = record { timed = no_buckets; negative = 0; no_timestamp = 0 };
    last_recv_ns = none;
  })

abbrev pub bump_ns : ℕ → Buckets → Buckets
bump_ns ns b =
    if ltb ns 1000000
    then record b { b0 = b.b0 + 1 }
    else if ltb ns 10000000
    then record b { b1 = b.b1 + 1 }
    else if ltb ns 100000000
    then record b { b2 = b.b2 + 1 }
    else if ltb ns 1000000000
    then record b { b3 = b.b3 + 1 }
    else record b { b4 = b.b4 + 1 }

abbrev pub bump_backlog : Option ℕ → Buckets → Buckets
bump_backlog none b = b
bump_backlog (some bytes) b =
    if bytes == 0
    then record b { b0 = b.b0 + 1 }
    else if leb bytes 512
    then record b { b1 = b.b1 + 1 }
    else if leb bytes 4096
    then record b { b2 = b.b2 + 1 }
    else if leb bytes 32768
    then record b { b3 = b.b3 + 1 }
    else record b { b4 = b.b4 + 1 }

abbrev pub bump_dwell : Option (ℕ × ℕ) → DwellBuckets → DwellBuckets
bump_dwell none b = record b { no_timestamp = b.no_timestamp + 1 }
bump_dwell (some (kernel_ns, userland_ns)) b =
    if ltb userland_ns kernel_ns
    then record b { negative = b.negative + 1 }
    else record b { timed = bump_ns (userland_ns - kernel_ns) b.timed }

-- The clock is monotonic: it does not go back.
abbrev pub bump_gap : Option ℕ → ℕ → Buckets → Buckets
bump_gap none now_ns b = b
bump_gap (some last_ns) now_ns b = bump_ns (now_ns - last_ns) b

-- What the loop does with every packet that has a payload.
abbrev pub take_in : MrcDaemon → Received → MrcDaemon
take_in d r = record d {
  rx_dwell = bump_dwell r.kernel_rx d.rx_dwell;
  rx_gap = bump_gap d.last_recv_ns r.now_ns d.rx_gap;
  last_recv_ns = some r.now_ns;
  rx_backlog = bump_backlog r.inq_bytes d.rx_backlog;
  counters = record (d.counters) { packets_received = d.counters.packets_received + 1 };
}

-- self._demux.get(dst_id)
abbrev pub paired : DaemonFlow → Option SenderMrcAgent → Option (DaemonFlow × SenderMrcAgent)
paired flow none = none
paired flow (some a) = some (flow, a)

abbrev pub agent_of : MrcDaemon → Option DaemonFlow → Option (DaemonFlow × SenderMrcAgent)
agent_of d none = none
agent_of d (some flow) = paired flow (find flow_discrete flow d.agents)

unfoldable pub demux_agent : MrcDaemon → ℕ → Option (DaemonFlow × SenderMrcAgent)
demux_agent d dst_id = agent_of d (find ℕ_discrete dst_id d.demux)

-- The text, if it is not empty, read.
abbrev pub read_addr {ℓ} : {A : Type ℓ} → (Text → Option A) → Option Text → Option A
read_addr read none = none
read_addr read (some []) = none
read_addr read (some (c ∷ cs)) = read (c ∷ cs)

abbrev pub ev_differs : Option (String × (ℕ × (ℕ × ℕ))) → Probe → Bool
ev_differs none p = false
ev_differs (some (tenant, (host, (plane, path)))) p = not (plane == p.plane_id && path == p.path_id)

abbrev pub count_mismatch : Bool → DispatchCounters → DispatchCounters
count_mismatch true c = record c { probes_ev_mismatch = c.probes_ev_mismatch + 1 }
count_mismatch false c = c

abbrev pub deliver_probe :
    Fabric → MrcDaemon → Probe → Option Text → Option (DaemonFlow × SenderMrcAgent) → MrcDaemon
deliver_probe f d p peer none = record d {
  counters = record (d.counters) { probes_no_flow = d.counters.probes_no_flow + 1 };
}
deliver_probe f d p peer (some (flow, a)) =
    let c = count_mismatch (ev_differs (read_addr (probe_ev_from_inner_dst f) peer) p) d.counters in
    record (with_agent d flow (record_probe_recv a p.plane_id p.path_id)) {
      counters = record c { probes_dispatched = c.probes_dispatched + 1 };
    }

abbrev pub dispatch_decoded : Fabric → MrcDaemon → Option Text → Result Probe → MrcDaemon
dispatch_decoded f d peer (raise e) = record d {
  counters = record (d.counters) { probes_decode_failed = d.counters.probes_decode_failed + 1 };
}
dispatch_decoded f d peer (ok p) = deliver_probe f d p peer (demux_agent d p.dst_id)

unfoldable pub dispatch_probe : Fabric → MrcDaemon → Received → MrcDaemon
dispatch_probe f d r = dispatch_decoded f d r.peer_addr (decode_probe r.payload)

abbrev pub no_peer : MrcDaemon → MrcDaemon
no_peer d = record d {
  counters = record (d.counters) { loss_reports_no_peer = d.counters.loss_reports_no_peer + 1 };
}

-- An exception of the handler leaves the agent as far as it came, and is not counted.
abbrev pub count_handled : Result (Unit {0}) → DispatchCounters → DispatchCounters
count_handled (ok done) c = record c { loss_reports_dispatched = c.loss_reports_dispatched + 1 }
count_handled (raise e) c = c

abbrev pub deliver_loss_report :
    MrcDaemon → Received → Option (DaemonFlow × SenderMrcAgent) → MrcDaemon
deliver_loss_report d r none = no_peer d
deliver_loss_report d r (some (flow, a)) =
    let (after, result) = handle_loss_report a r.payload r.handled_ns in
    record (with_agent d flow after) { counters = count_handled result d.counters }

abbrev pub dispatch_from : MrcDaemon → Received → Option (String × ℕ) → MrcDaemon
dispatch_from d r none = no_peer d
dispatch_from d r (some (tenant, host_id)) = deliver_loss_report d r (demux_agent d host_id)

unfoldable pub dispatch_loss_report : MrcDaemon → Received → MrcDaemon
dispatch_loss_report d r = dispatch_from d r (read_addr host_id_from_inner_addr r.peer_addr)

-- payload[0] decides.
abbrev pub dispatch_magic : Fabric → MrcDaemon → Received → ℕ → MrcDaemon
dispatch_magic f d r magic =
    if magic == magic_probe
    then dispatch_probe f d r
    else if magic == magic_loss_report
    then dispatch_loss_report d r
    else record d {
      counters = record (d.counters) { unknown_magic = d.counters.unknown_magic + 1 };
    }

abbrev pub dispatch_payload : Fabric → MrcDaemon → Received → Bytes → MrcDaemon
dispatch_payload f d r [] = d
dispatch_payload f d r (magic ∷ rest) = dispatch_magic f (take_in d r) r magic

-- One turn of `_dispatch_loop`.
unfoldable pub dispatch : Fabric → MrcDaemon → Received → MrcDaemon
dispatch f d r = dispatch_payload f d r r.payload

unfoldable pub dispatch_all : Fabric → MrcDaemon → List Received → MrcDaemon
dispatch_all f d rs = foldl (dispatch f) d rs
