-- ===== src/Daemon/Counters.antt =====
-- srv6_mrc/mrc/daemon.py: the dispatcher's counters and buckets.
use Prim.Native.String.{String}
use mathlib.Core.Path.{subst}
use srv6_mrc_emulator.Common.{
  ℕ, suc, ◌+◌, ◌-◌, ◌≤◌, ◌≡◌, refl, ap, false, List, [], ◌∷◌, Option, none, some, arith, Bool-cases,
  inl, inr, Result, ok, raise, guard, >>=-eq-ok, not, ◌==◌, value_error, if◌then◌else◌,
}
use srv6_mrc_emulator.Wire.Defs.{Bytes, Probe, decode_probe, magic_probe, magic_loss_report}
use srv6_mrc_emulator.EvState.Defs.{EvStateConfig}
use srv6_mrc_emulator.EvState.Table.{new_table}
use srv6_mrc_emulator.Topo.Defs.{Text}
use srv6_mrc_emulator.Topo.Addresses.{Fabric, host_id_from_inner_addr, probe_ev_from_inner_dst}
use srv6_mrc_emulator.Agent.Sender.{SenderMrcAgent, handle_loss_report}
use srv6_mrc_emulator.Daemon.Defs.{
  DaemonFlow, MrcDaemon, DispatchCounters, Buckets, DwellBuckets, Received, bump_ns, bump_backlog,
  bump_dwell, bump_gap, take_in, count_handled, deliver_probe, dispatch_decoded, dispatch_probe,
  deliver_loss_report, dispatch_from, dispatch_loss_report, dispatch_magic, dispatch_payload,
  dispatch, dispatch_all, new_agent, new_daemon, add_flows, demux_agent, read_addr, is_empty,
  ev_differs,
}

abbrev pub total : Buckets → ℕ
total b = b.b0 + b.b1 + b.b2 + b.b3 + b.b4

abbrev pub dwell_total : DwellBuckets → ℕ
dwell_total b = total b.timed + b.negative + b.no_timestamp

abbrev pub outcomes : DispatchCounters → ℕ
outcomes c =
    c.probes_dispatched + c.probes_no_flow + c.probes_decode_failed + c.loss_reports_dispatched
    + c.loss_reports_no_peer + c.unknown_magic

abbrev pub seen : Option ℕ → ℕ
seen none = 0
seen (some at) = 1

-- The counters of a dispatcher that counts every packet once. Only an exception of a handler leaves a packet
-- without an outcome.
pub record IsTallied (d : MrcDaemon) : Type 0 where
  pub dwell : dwell_total d.rx_dwell ≡ d.counters.packets_received
  pub gaps : total d.rx_gap + seen d.last_recv_ns ≡ d.counters.packets_received
  pub backlog : total d.rx_backlog ≤ d.counters.packets_received
  pub outcome : outcomes d.counters ≤ d.counters.packets_received
  pub canary : d.counters.probes_ev_mismatch ≤ d.counters.probes_dispatched

total-bump_ns : (ns : ℕ) (b : Buckets) → total (bump_ns ns b) ≡ total b + 1
total-bump_ns ns b = ground arith

total-bump_backlog : (bytes : Option ℕ) (b : Buckets) → total (bump_backlog bytes b) ≤ total b + 1
total-bump_backlog none b = omega arith
total-bump_backlog (some bytes) b = ground arith

dwell_total-bump :
    (rx : Option (ℕ × ℕ)) (b : DwellBuckets) → dwell_total (bump_dwell rx b) ≡ dwell_total b + 1
dwell_total-bump none b = omega arith
dwell_total-bump (some (kernel_ns, userland_ns)) b =
    ground (arith, total-bump_ns (userland_ns - kernel_ns) b.timed)

total-bump_gap :
    (last : Option ℕ) (now_ns : ℕ) (b : Buckets)
    → total (bump_gap last now_ns b) + 1 ≡ total b + seen last + 1
total-bump_gap none now_ns b = omega arith
total-bump_gap (some last_ns) now_ns b = ground (arith, total-bump_ns (now_ns - last_ns) b)

-- What follows the taking in: at most one outcome, exactly one without slack, and the buckets as they were.
record IsOutcome (slack : ℕ) (d e : MrcDaemon) : Type 0 where
  received : e.counters.packets_received ≡ d.counters.packets_received
  outcome : outcomes e.counters ≤ outcomes d.counters + 1
  least : outcomes d.counters + 1 ≤ outcomes e.counters + slack
  canary :
      e.counters.probes_ev_mismatch + d.counters.probes_dispatched
      ≤ d.counters.probes_ev_mismatch + e.counters.probes_dispatched
  dwell : e.rx_dwell ≡ d.rx_dwell
  gaps : e.rx_gap ≡ d.rx_gap
  last : e.last_recv_ns ≡ d.last_recv_ns
  backlog : e.rx_backlog ≡ d.rx_backlog

of_counters :
    {slack : ℕ} (d : MrcDaemon) (agents : List (DaemonFlow × SenderMrcAgent)) (c : DispatchCounters)
    → c.packets_received ≡ d.counters.packets_received
    → outcomes c ≤ outcomes d.counters + 1
    → outcomes d.counters + 1 ≤ outcomes c + slack
    → c.probes_ev_mismatch + d.counters.probes_dispatched
      ≤ d.counters.probes_ev_mismatch + c.probes_dispatched
    → IsOutcome slack d (record d { agents = agents; counters = c })
of_counters d agents c received outcome least canary = record {
  received = received;
  outcome = outcome;
  least = least;
  canary = canary;
  dwell = refl;
  gaps = refl;
  last = refl;
  backlog = refl;
}

deliver_probe-IsOutcome :
    (f : Fabric) (d : MrcDaemon) (p : Probe) (peer : Option Text)
    (found : Option (DaemonFlow × SenderMrcAgent))
    → IsOutcome 0 d (deliver_probe f d p peer found)
deliver_probe-IsOutcome f d p peer none =
    of_counters d _ _ refl (omega arith) (omega arith) (omega arith)
deliver_probe-IsOutcome f d p peer (some (flow, a)) =
    elim (Bool-cases (ev_differs (read_addr (probe_ev_from_inner_dst f) peer) p)) [
      | inl differs ↦ rw differs (of_counters d _ _ refl (omega arith) (omega arith) (omega arith))
      | inr agrees ↦ rw agrees (of_counters d _ _ refl (omega arith) (omega arith) (omega arith))
    ]

dispatch_decoded-IsOutcome :
    (f : Fabric) (d : MrcDaemon) (peer : Option Text) (decoded : Result Probe)
    → IsOutcome 0 d (dispatch_decoded f d peer decoded)
dispatch_decoded-IsOutcome f d peer (raise e) =
    of_counters d _ _ refl (omega arith) (omega arith) (omega arith)
dispatch_decoded-IsOutcome f d peer (ok p) =
    deliver_probe-IsOutcome f d p peer (demux_agent d p.dst_id)

deliver_loss_report-IsOutcome :
    (d : MrcDaemon) (r : Received) (found : Option (DaemonFlow × SenderMrcAgent))
    → IsOutcome 1 d (deliver_loss_report d r found)
deliver_loss_report-IsOutcome d r none =
    of_counters d _ _ refl (omega arith) (omega arith) (omega arith)
deliver_loss_report-IsOutcome d r (some (flow, a)) =
    of_handled d _ (handle_loss_report a r.payload r.handled_ns).1
  where
    of_handled :
        (d : MrcDaemon) (agents : List (DaemonFlow × SenderMrcAgent)) (result : Result (Unit {0}))
        → IsOutcome 1 d (record d { agents = agents; counters = count_handled result d.counters })
    of_handled d agents (ok done) = of_counters d _ _ refl (omega arith) (omega arith) (omega arith)
    of_handled d agents (raise e) = of_counters d _ _ refl (omega arith) (omega arith) (omega arith)

dispatch_from-IsOutcome :
    (d : MrcDaemon) (r : Received) (host : Option (String × ℕ))
    → IsOutcome 1 d (dispatch_from d r host)
dispatch_from-IsOutcome d r none = of_counters d _ _ refl (omega arith) (omega arith) (omega arith)
dispatch_from-IsOutcome d r (some (tenant, host_id)) =
    deliver_loss_report-IsOutcome d r (demux_agent d host_id)

-- Whether a packet is a loss report, by its first byte.
abbrev is_report : ℕ → ℕ
is_report magic = if magic == magic_loss_report then 1 else 0

dispatch_magic-IsOutcome :
    (f : Fabric) (d : MrcDaemon) (r : Received) (magic : ℕ)
    → IsOutcome (is_report magic) d (dispatch_magic f d r magic)
unfolding dispatch_probe dispatch_loss_report
dispatch_magic-IsOutcome f d r magic = elim (Bool-cases (magic == magic_probe)) [
  | inl probe ↦
      let other : (magic == magic_loss_report) ≡ false = ground (arith, probe) in
      rw (probe, other) (dispatch_decoded-IsOutcome f d r.peer_addr (decode_probe r.payload))
  | inr other ↦ elim (Bool-cases (magic == magic_loss_report)) [
    | inl report ↦
        rw (other, report)
          (dispatch_from-IsOutcome d r (read_addr host_id_from_inner_addr r.peer_addr))
    | inr unknown ↦
        rw (other, unknown) (of_counters d _ _ refl (omega arith) (omega arith) (omega arith))
  ]
]

-- The packets that have a payload, and those of them that are loss reports.
abbrev pub with_payload : List Received → ℕ
with_payload [] = 0
with_payload (r ∷ rs) = elim (r.payload) [
  | [] ↦ with_payload rs
  | magic ∷ rest ↦ suc (with_payload rs)
]

abbrev pub loss_reports : List Received → ℕ
loss_reports [] = 0
loss_reports (r ∷ rs) = elim (r.payload) [
  | [] ↦ loss_reports rs
  | magic ∷ rest ↦ is_report magic + loss_reports rs
]

-- From one state to another one: what was received, and what has no outcome.
record IsRun (packets reports : ℕ) (d e : MrcDaemon) : Type 0 where
  tallied : IsTallied e
  received : e.counters.packets_received ≡ d.counters.packets_received + packets
  least : outcomes d.counters + packets ≤ outcomes e.counters + reports

dispatch-IsRun :
    (f : Fabric) (d : MrcDaemon) (r : Received)
    → IsTallied d
    → IsRun (with_payload (r ∷ [])) (loss_reports (r ∷ [])) d (dispatch f d r)
unfolding dispatch
dispatch-IsRun f d r h = of_payload r.payload
  where
    of_payload :
        (payload : Bytes)
        → IsRun
            (elim payload [ [] ↦ 0 | magic ∷ rest ↦ 1 ])
            (elim payload [ [] ↦ 0 | magic ∷ rest ↦ is_report magic + 0 ])
            d
            (dispatch_payload f d r payload)
    of_payload [] = record { tallied = h; received = omega arith; least = omega arith }
    of_payload (magic ∷ rest) =
        let after = dispatch_magic-IsOutcome f (take_in d r) r magic in
        record {
          tallied = record {
            dwell = omega (
              arith,
              ap dwell_total after.dwell,
              after.received,
              dwell_total-bump r.kernel_rx d.rx_dwell,
              h.dwell,
            );
            gaps = omega (
              arith,
              ap total after.gaps,
              ap seen after.last,
              after.received,
              total-bump_gap d.last_recv_ns r.now_ns d.rx_gap,
              h.gaps,
            );
            backlog = omega (
              arith,
              ap total after.backlog,
              after.received,
              total-bump_backlog r.inq_bytes d.rx_backlog,
              h.backlog,
            );
            outcome = omega (arith, after.outcome, after.received, h.outcome);
            canary = omega (arith, after.canary, h.canary);
          };
          received = omega (arith, after.received);
          least = omega (arith, after.least);
        }

dispatch_all-IsRun :
    (f : Fabric) (d : MrcDaemon) (rs : List Received)
    → IsTallied d
    → IsRun (with_payload rs) (loss_reports rs) d (dispatch_all f d rs)
unfolding dispatch_all
dispatch_all-IsRun f d [] h = record { tallied = h; received = omega arith; least = omega arith }
dispatch_all-IsRun f d (r ∷ rs) h =
    let first = dispatch-IsRun f d r h in
    let rest = dispatch_all-IsRun f (dispatch f d r) rs first.tallied in
    record {
      tallied = rest.tallied;
      received = ground (arith, first.received, rest.received);
      least = ground (arith, first.least, rest.least);
    }

-- A daemon before its first packet.
record IsNew (d : MrcDaemon) : Type 0 where
  tallied : IsTallied d
  received : d.counters.packets_received ≡ 0
  outcome : outcomes d.counters ≡ 0

add_flows-IsNew :
    (f : Fabric) (cfg : EvStateConfig) (skew_ms clock_ns : ℕ) (flows : List DaemonFlow)
    (d e : MrcDaemon)
    → IsNew d
    → add_flows f cfg skew_ms clock_ns flows d ≡ ok e
    → IsNew e
unfolding add_flows
add_flows-IsNew f cfg skew_ms clock_ns [] d e h k = let same : d ≡ e = cc in subst IsNew same h
add_flows-IsNew f cfg skew_ms clock_ns ((tenant, dst_id) ∷ flows) d e h k =
    let (table, made, k1) =
      >>=-eq-ok (new_table (tenant ∷ []) f.shape.num_planes f.shape.num_spines cfg) _ k in
    let (agent, built, k2) =
      >>=-eq-ok (new_agent f tenant d.src_id dst_id table skew_ms clock_ns) _ k1 in
    let t = h.tallied in
    add_flows-IsNew f cfg skew_ms clock_ns flows _ e
      (record {
        tallied = record {
          dwell = t.dwell;
          gaps = t.gaps;
          backlog = t.backlog;
          outcome = t.outcome;
          canary = t.canary;
        };
        received = h.received;
        outcome = h.outcome;
      })
      k2

-- A new daemon that has taken any sequence of packets has received those with a payload; each of them stands in
-- one bucket of the dwell times and has at most one outcome, and only loss reports can lack one. All but the
-- first stand in one bucket of the gaps, and no more mismatches are counted than probes delivered.
pub dispatch_all-IsTallied :
    (f : Fabric) (cfg : EvStateConfig) (skew_ms clock_ns src_id : ℕ) (flows : List DaemonFlow)
    (d : MrcDaemon) (rs : List Received)
    → new_daemon f cfg skew_ms clock_ns src_id flows ≡ ok d
    → let e = dispatch_all f d rs in
      IsTallied e
      × (e.counters.packets_received ≡ with_payload rs)
      × (with_payload rs ≤ outcomes e.counters + loss_reports rs)
unfolding new_daemon
dispatch_all-IsTallied f cfg skew_ms clock_ns src_id flows d rs h =
    let (u, some_flow, k) = >>=-eq-ok (guard (not (is_empty flows)) value_error) _ h in
    let start =
      add_flows-IsNew f cfg skew_ms clock_ns flows _ d
        (record {
          tallied = record {
            dwell = refl;
            gaps = refl;
            backlog = omega arith;
            outcome = omega arith;
            canary = omega arith;
          };
          received = refl;
          outcome = refl;
        })
        k in
    let run = dispatch_all-IsRun f d rs start.tallied in
    (
      run.tallied,
      omega (arith, run.received, start.received),
      omega (arith, run.least, start.outcome),
    )
