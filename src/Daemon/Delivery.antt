-- ===== src/Daemon/Delivery.antt =====
-- srv6_mrc/mrc/daemon.py: what the dispatcher does with the datagrams that agents send.
use Prim.Native.String.{String}
use native.Mathlib.Decide.{ℕ_discrete}
use text.Mathlib.Text.{◌==◌ as str_eq}
use srv6_mrc_emulator.Common.{
  ℕ, ◌+◌, ◌≤◌, ◌<◌, ◌≡◌, ◌≢◌, ◌∙◌, refl, sym, ap, Bool, true, false, List, [], ◌∷◌, append-nil, map,
  length, All, leb, none, some, arith, Result, ok, raise, guard, >>=-eq-ok, guard-ok, ok-injective,
  leb→le, value_error, if◌then◌else◌,
}
use srv6_mrc_emulator.Common.Dict.{find, put, find-put_same, find-put_ne}
use srv6_mrc_emulator.Wire.Struct.{pack, be_bytes}
use srv6_mrc_emulator.Wire.Defs.{
  Bytes, Probe, PlaneLossRecord, encode_probe, decode_probe, encode_loss_report, decode_loss_report,
  magic_probe, magic_loss_report, check_u8, check_u16,
}
use srv6_mrc_emulator.Wire.RoundTrip.{IsProbe, encode, decode-encode_probe}
use srv6_mrc_emulator.Wire.Reports.{IsRecord, cap_trimmed, decode-encode_loss_report}
use srv6_mrc_emulator.Topo.Defs.{Text}
use srv6_mrc_emulator.Topo.Ipv6.{ipv6_groups, split_colon}
use srv6_mrc_emulator.Topo.Addresses.{Fabric, inner_addr, host_id_from_inner_addr}
use srv6_mrc_emulator.Topo.Hosts.{host_id_from_inner_addr-inner_addr}
use srv6_mrc_emulator.Agent.Sender.{
  SenderMrcAgent, record_probe_recv, emit_probe, finish_emit, handle_decoded, handle_loss_report,
}
use srv6_mrc_emulator.Daemon.Defs.{
  DaemonFlow, flow_discrete, MrcDaemon, DispatchCounters, Received, take_in, count_mismatch,
  no_peer, deliver_probe, dispatch_decoded, dispatch_probe, deliver_loss_report, dispatch_from,
  dispatch_loss_report, dispatch_payload, dispatch, demux_agent, agent_of, paired, read_addr,
}

-- The agent that `_demux` has for a host.
pub record IsServed (d : MrcDaemon) (dst_id : ℕ) (flow : DaemonFlow) (a : SenderMrcAgent)
    : Type 0 where
  pub named : find ℕ_discrete dst_id d.demux ≡ some flow
  pub stored : find flow_discrete flow d.agents ≡ some a

-- One flow's agent replaced, and no other one.
pub record IsReplaced (d e : MrcDaemon) (flow : DaemonFlow) (a : SenderMrcAgent) : Type 0 where
  pub here : find flow_discrete flow e.agents ≡ some a
  pub others :
      (k : DaemonFlow) → k ≢ flow → find flow_discrete k e.agents ≡ find flow_discrete k d.agents

demux_agent-served :
    (d : MrcDaemon) (dst_id : ℕ) (flow : DaemonFlow) (a : SenderMrcAgent)
    → IsServed d dst_id flow a
    → demux_agent d dst_id ≡ some (flow, a)
unfolding demux_agent
demux_agent-served d dst_id flow a h = ap (agent_of d) h.named ∙ ap (paired flow) h.stored

put-IsReplaced :
    (d e : MrcDaemon) (flow : DaemonFlow) (a : SenderMrcAgent)
    → e.agents ≡ put flow_discrete flow a d.agents
    → IsReplaced d e flow a
put-IsReplaced d e flow a h = record {
  here = ap (find flow_discrete flow) h ∙ find-put_same flow_discrete flow a d.agents;
  others = λ k other.
      ap (find flow_discrete k) h
      ∙ find-put_ne flow_discrete k flow a d.agents (λ same. other (sym same));
}

-- What an encoded probe is: its first byte, its fields, and that it is read back.
encode_probe-ok :
    (p : Probe) (bytes : Bytes)
    → encode p ≡ ok bytes
    → ((rest : Bytes) × (bytes ≡ magic_probe ∷ rest)) × (decode_probe bytes ≡ ok p)
unfolding encode_probe check_u8 check_u16 pack be_bytes
encode_probe-ok p bytes h =
    let (u1, a, h1) = >>=-eq-ok (guard (leb p.plane_id 0xFF) value_error) _ h in
    let (u2, b, h2) = >>=-eq-ok (guard (leb p.path_id 0xFF) value_error) _ h1 in
    let (u3, c, h3) = >>=-eq-ok (guard (leb p.tenant_id 0xFFFF) value_error) _ h2 in
    let (u4, g, h4) = >>=-eq-ok (guard (leb p.src_id 0xFFFF) value_error) _ h3 in
    let (u5, e, h5) = >>=-eq-ok (guard (leb p.dst_id 0xFF) value_error) _ h4 in
    let bounds : IsProbe p = record {
      plane_u8 = leb→le _ _ (guard-ok _ _ a);
      path_u8 = leb→le _ _ (guard-ok _ _ b);
      tenant_u16 = leb→le _ _ (guard-ok _ _ c);
      src_u16 = leb→le _ _ (guard-ok _ _ g);
      dst_u8 = leb→le _ _ (guard-ok _ _ e);
    } in
    let (same, made, size, read) = decode-encode_probe p [] bounds in
    let equal = ok-injective same bytes (sym made ∙ h) in
    ((_, sym (ok-injective _ bytes h5)), ap decode_probe (sym equal ∙ sym (append-nil same)) ∙ read)

emit_probe-payload :
    (a : SenderMrcAgent) (plane path : ℕ) (bytes : Bytes)
    → (emit_probe a plane path true).1 ≡ some bytes
    → encode_probe plane path a.tenant_id a.src_id a.dst_id ≡ ok bytes
unfolding emit_probe
emit_probe-payload a plane path bytes h =
    of_result (encode_probe plane path a.tenant_id a.src_id a.dst_id) h
  where
    of_result : (r : Result Bytes) → (finish_emit a plane path true r).1 ≡ some bytes → r ≡ ok bytes
    of_result (raise e) h = cc
    of_result (ok payload) h = cc

dispatch-of_probe :
    (f : Fabric) (d : MrcDaemon) (r : Received) (p : Probe) (flow : DaemonFlow) (a : SenderMrcAgent)
    → encode p ≡ ok r.payload
    → IsServed d p.dst_id flow a
    → dispatch f d r ≡ deliver_probe f (take_in d r) p r.peer_addr (some (flow, a))
unfolding dispatch dispatch_probe
dispatch-of_probe f d r p flow a h served =
    let ((rest, first), read) = encode_probe-ok p r.payload h in
    let at =
      demux_agent-served (take_in d r) p.dst_id flow a
        (record { named = served.named; stored = served.stored }) in
    ap (dispatch_payload f d r) first
    ∙ ap (dispatch_decoded f (take_in d r) r.peer_addr) read
    ∙ ap (deliver_probe f (take_in d r) p r.peer_addr) at

dispatched-count_mismatch :
    (b : Bool) (c : DispatchCounters) → (count_mismatch b c).probes_dispatched ≡ c.probes_dispatched
dispatched-count_mismatch true c = refl
dispatched-count_mismatch false c = refl

-- A probe that an agent sent to a host and that comes back to the daemon is credited to its EV by the agent that
-- the daemon has for that host, and to no other flow, whatever address it comes from; it is counted as dispatched.
pub dispatch-emit_probe :
    (f : Fabric) (d : MrcDaemon) (r : Received) (sender a : SenderMrcAgent) (flow : DaemonFlow)
    (plane path : ℕ)
    → (emit_probe sender plane path true).1 ≡ some r.payload
    → IsServed d sender.dst_id flow a
    → IsReplaced d (dispatch f d r) flow (record_probe_recv a plane path)
      × ((dispatch f d r).counters.probes_dispatched ≡ d.counters.probes_dispatched + 1)
dispatch-emit_probe f d r sender a flow plane path sent served =
    let p : Probe = record {
      plane_id = plane;
      path_id = path;
      tenant_id = sender.tenant_id;
      src_id = sender.src_id;
      dst_id = sender.dst_id;
    } in
    let same =
      dispatch-of_probe f d r p flow a (emit_probe-payload sender plane path r.payload sent)
        served in
    (
      put-IsReplaced d (dispatch f d r) flow (record_probe_recv a plane path)
          (ap (λ e. e.agents) same),
      ap (λ e. e.counters.probes_dispatched) same ∙ ap (λ n. n + 1) (dispatched-count_mismatch _ _),
    )

read_addr-host :
    (addr : Text) → read_addr host_id_from_inner_addr (some addr) ≡ host_id_from_inner_addr addr
unfolding host_id_from_inner_addr ipv6_groups split_colon
read_addr-host [] = refl
read_addr-host (c ∷ addr) = refl

encode_loss_report-first :
    (window_id : ℕ) (planes : List PlaneLossRecord) (bytes : Bytes)
    → encode_loss_report window_id planes ≡ ok bytes
    → (rest : Bytes) × (bytes ≡ magic_loss_report ∷ rest)
unfolding encode_loss_report check_u16 pack be_bytes
encode_loss_report-first window_id planes bytes h =
    let (u1, a, h1) = >>=-eq-ok (guard (leb window_id 0xFFFF) value_error) _ h in
    let (u2, b, h2) = >>=-eq-ok (guard (leb (length planes) 0xFFFF) value_error) _ h1 in
    (_, sym (ok-injective _ bytes h2))

-- A datagram of a receiver: a loss report of its own, from its inner address.
pub record IsReport (f : Fabric) (r : Received) (tenant : String) (host_id window_id : ℕ)
    (planes : List PlaneLossRecord) : Type 0 where
  pub addr : Text
  pub small : f.num_leaves ≤ 0x10000
  pub from : inner_addr f tenant host_id ≡ ok addr
  pub peer : r.peer_addr ≡ some addr
  pub valid : All IsRecord planes
  pub encoded : encode_loss_report window_id planes ≡ ok r.payload

module _ (f : Fabric) (d : MrcDaemon) (r : Received) (tenant : String) (host_id window_id : ℕ)
    (planes : List PlaneLossRecord) (sent : IsReport f r tenant host_id window_id planes) where
  dispatch-of_report :
      dispatch f d r
      ≡ dispatch_from (take_in d r) r (
          if leb host_id 15
          then some (if str_eq tenant "green" then "green" else "yellow", host_id)
          else none)
  unfolding dispatch dispatch_loss_report
  dispatch-of_report =
      ap (dispatch_payload f d r)
        (encode_loss_report-first window_id planes r.payload sent.encoded).1
      ∙ ap (dispatch_from (take_in d r) r) (
          ap (read_addr host_id_from_inner_addr) sent.peer
          ∙ read_addr-host sent.addr
          ∙ host_id_from_inner_addr-inner_addr f tenant host_id sent.addr sent.small sent.from)

  decode_loss_report-sent :
      decode_loss_report r.payload
      ≡ ok (record { window_id = window_id; planes = map cap_trimmed planes })
  unfolding encode_loss_report check_u16
  decode_loss_report-sent =
      let (u1, a, h1) = >>=-eq-ok (guard (leb window_id 0xFFFF) value_error) _ sent.encoded in
      let (u2, b, h2) = >>=-eq-ok (guard (leb (length planes) 0xFFFF) value_error) _ h1 in
      let (same, made, size, version, read) =
        decode-encode_loss_report window_id planes [] (leb→le _ _ (guard-ok _ _ a))
          (leb→le _ _ (guard-ok _ _ b)) sent.valid in
      ap decode_loss_report
        (sym (ok-injective same r.payload (sym made ∙ sent.encoded)) ∙ sym (append-nil same))
      ∙ read

  -- A loss report that a host with an id of at most 15 sends from its inner address is handled by the agent that the
  -- daemon has for that host, with the records that the receiver put into it, and by no other flow's agent.
  pub dispatch-report_from :
      (flow : DaemonFlow) (a : SenderMrcAgent)
      → host_id ≤ 15
      → IsServed d host_id flow a
      → IsReplaced d
          (dispatch f d r)
          flow
          (handle_decoded a r.handled_ns
            (ok (record { window_id = window_id; planes = map cap_trimmed planes }))).0
  unfolding handle_loss_report
  dispatch-report_from flow a low served =
      let known : leb host_id 15 ≡ true = ground (arith, low) in
      let at =
        demux_agent-served (take_in d r) host_id flow a
          (record { named = served.named; stored = served.stored }) in
      put-IsReplaced d (dispatch f d r) flow _ (
        ap (λ e. e.agents) dispatch-of_report
        ∙ rw known (ap (λ found. (deliver_loss_report (take_in d r) r found).agents) at)
        ∙ ap (λ decoded. put flow_discrete flow (handle_decoded a r.handled_ns decoded).0 d.agents)
            decode_loss_report-sent)

  -- A loss report of a host with an id above 15 changes no agent, although the daemon may have one for that host, and
  -- is counted as coming from no peer.
  pub dispatch-report_from_high :
      15 < host_id
      → ((dispatch f d r).agents ≡ d.agents)
        × ((dispatch f d r).counters.loss_reports_no_peer ≡ d.counters.loss_reports_no_peer + 1)
        × ((dispatch f d r).counters.loss_reports_dispatched ≡ d.counters.loss_reports_dispatched)
  dispatch-report_from_high high =
      let unknown : leb host_id 15 ≡ false = ground (arith, high) in
      let same : dispatch f d r ≡ no_peer (take_in d r) = dispatch-of_report ∙ rw unknown refl in
      (
        ap (λ e. e.agents) same,
        ap (λ e. e.counters.loss_reports_no_peer) same,
        ap (λ e. e.counters.loss_reports_dispatched) same,
      )
