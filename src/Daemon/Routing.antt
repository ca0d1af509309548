-- ===== src/Daemon/Routing.antt =====
-- srv6_mrc/mrc/daemon.py: which agent a packet reaches, and that the flows keep their agents.
use Prim.Native.String.{String}
use mathlib.Core.Path.{subst}
use native.Mathlib.Decide.{ℕ_discrete}
use srv6_mrc_emulator.Common.{
  ℕ, ◌≡◌, ◌⊎◌, ◌∙◌, refl, sym, ap, List, [], ◌∷◌, Option, none, some, arith, Option-cases, inl, inr,
  Result, ok, raise, ◌==◌, if_elim,
}
use srv6_mrc_emulator.Common.Dict.{find, put, find-put_same, find-put_ne}
use srv6_mrc_emulator.Wire.Defs.{
  Bytes, Probe, LossReport, decode_probe, decode_loss_report, magic_probe, magic_loss_report,
}
use srv6_mrc_emulator.EvState.Table.{EvStateTable, record_probe_recv as table_probe_recv}
use srv6_mrc_emulator.Topo.Defs.{Text}
use srv6_mrc_emulator.Topo.Addresses.{Fabric, host_id_from_inner_addr}
use srv6_mrc_emulator.Agent.Sender.{
  SenderMrcAgent, ignore_raise, handle_decoded, handle_loss_report, record_probe_recv,
}
use srv6_mrc_emulator.Daemon.Defs.{
  DaemonFlow, flow_discrete, MrcDaemon, Received, take_in, deliver_probe, dispatch_decoded,
  dispatch_probe, deliver_loss_report, dispatch_from, dispatch_loss_report, dispatch_magic,
  dispatch_payload, dispatch, dispatch_all, demux_agent, read_addr,
}

-- The same flow's agent, at another time.
pub record SameFlow (a b : SenderMrcAgent) : Type 0 where
  pub tenant : b.tenant ≡ a.tenant
  pub tenant_id : b.tenant_id ≡ a.tenant_id
  pub src_id : b.src_id ≡ a.src_id
  pub dst_id : b.dst_id ≡ a.dst_id

ignore_raise-SameFlow :
    (a : SenderMrcAgent) (r : Result EvStateTable) → SameFlow a (ignore_raise a r)
ignore_raise-SameFlow a (ok t) = record {
  tenant = refl;
  tenant_id = refl;
  src_id = refl;
  dst_id = refl;
}
ignore_raise-SameFlow a (raise e) = record {
  tenant = refl;
  tenant_id = refl;
  src_id = refl;
  dst_id = refl;
}

record_probe_recv-SameFlow :
    (a : SenderMrcAgent) (plane path : ℕ) → SameFlow a (record_probe_recv a plane path)
unfolding record_probe_recv
record_probe_recv-SameFlow a plane path =
    ignore_raise-SameFlow a (table_probe_recv a.fusion.table a.tenant plane path)

handle_decoded-SameFlow :
    (a : SenderMrcAgent) (at : ℕ) (r : Result LossReport) → SameFlow a (handle_decoded a at r).0
handle_decoded-SameFlow a at (raise e) = record {
  tenant = refl;
  tenant_id = refl;
  src_id = refl;
  dst_id = refl;
}
handle_decoded-SameFlow a at (ok report) = record {
  tenant = refl;
  tenant_id = refl;
  src_id = refl;
  dst_id = refl;
}

handle_loss_report-SameFlow :
    (a : SenderMrcAgent) (payload : Bytes) (at : ℕ) → SameFlow a (handle_loss_report a payload at).0
unfolding handle_loss_report
handle_loss_report-SameFlow a payload at = handle_decoded-SameFlow a at (decode_loss_report payload)

-- What a packet can do to the agents: nothing, or one flow's agent takes a step.
record IsUpdate (d e : MrcDaemon) (flow : DaemonFlow) : Type 0 where
  before : SenderMrcAgent
  after : SenderMrcAgent
  found : find flow_discrete flow d.agents ≡ some before
  same : SameFlow before after
  stored : e.agents ≡ put flow_discrete flow after d.agents

abbrev Touches : MrcDaemon → MrcDaemon → Type 0
Touches d e =
    (e.demux ≡ d.demux) × ((e.agents ≡ d.agents) ⊎ ((flow : DaemonFlow) × IsUpdate d e flow))

pub some-injective {ℓ} : {A : Type ℓ} (x y : A) → some x ≡ some y → x ≡ y
some-injective x y h = cc

demux_agent-found :
    (d : MrcDaemon) (dst_id : ℕ) (flow : DaemonFlow) (a : SenderMrcAgent)
    → demux_agent d dst_id ≡ some (flow, a)
    → (find ℕ_discrete dst_id d.demux ≡ some flow) × (find flow_discrete flow d.agents ≡ some a)
unfolding demux_agent
demux_agent-found d dst_id flow a h = elim (Option-cases (find ℕ_discrete dst_id d.demux)) [
  | inl e ↦ ground (arith, h, e)
  | inr (k, e) ↦ elim (Option-cases (find flow_discrete k d.agents)) [
    | inl f ↦ ground (arith, h, e, f)
    | inr (b, f) ↦
        let own : DaemonFlow × SenderMrcAgent = (k, b) in
        let found : some own ≡ some (flow, a) = ground (arith, h, e, f) in
        subst
          (λ x.
            (find ℕ_discrete dst_id d.demux ≡ some x.0)
            × (find flow_discrete x.0 d.agents ≡ some x.1))
          (some-injective own (flow, a) found) (e, f)
  ]
]

deliver_probe-Touches :
    (f : Fabric) (d : MrcDaemon) (p : Probe) (peer : Option Text)
    (found : Option (DaemonFlow × SenderMrcAgent))
    → demux_agent d p.dst_id ≡ found
    → Touches d (deliver_probe f d p peer found)
deliver_probe-Touches f d p peer none h = (refl, inl refl)
deliver_probe-Touches f d p peer (some (flow, a)) h = (
  refl,
  inr (
    flow,
    record {
      before = a;
      after = record_probe_recv a p.plane_id p.path_id;
      found = (demux_agent-found d p.dst_id flow a h).1;
      same = record_probe_recv-SameFlow a p.plane_id p.path_id;
      stored = refl;
    },
  ),
)

dispatch_decoded-Touches :
    (f : Fabric) (d : MrcDaemon) (peer : Option Text) (decoded : Result Probe)
    → Touches d (dispatch_decoded f d peer decoded)
dispatch_decoded-Touches f d peer (raise e) = (refl, inl refl)
dispatch_decoded-Touches f d peer (ok p) =
    deliver_probe-Touches f d p peer (demux_agent d p.dst_id) refl

deliver_loss_report-Touches :
    (d : MrcDaemon) (r : Received) (host_id : ℕ) (found : Option (DaemonFlow × SenderMrcAgent))
    → demux_agent d host_id ≡ found
    → Touches d (deliver_loss_report d r found)
deliver_loss_report-Touches d r host_id none h = (refl, inl refl)
deliver_loss_report-Touches d r host_id (some (flow, a)) h = (
  refl,
  inr (
    flow,
    record {
      before = a;
      after = (handle_loss_report a r.payload r.handled_ns).0;
      found = (demux_agent-found d host_id flow a h).1;
      same = handle_loss_report-SameFlow a r.payload r.handled_ns;
      stored = refl;
    },
  ),
)

dispatch_from-Touches :
    (d : MrcDaemon) (r : Received) (host : Option (String × ℕ)) → Touches d (dispatch_from d r host)
dispatch_from-Touches d r none = (refl, inl refl)
dispatch_from-Touches d r (some (tenant, host_id)) =
    deliver_loss_report-Touches d r host_id (demux_agent d host_id) refl

dispatch_magic-Touches :
    (f : Fabric) (d : MrcDaemon) (r : Received) (magic : ℕ) → Touches d (dispatch_magic f d r magic)
unfolding dispatch_probe dispatch_loss_report
dispatch_magic-Touches f d r magic =
    if_elim (Touches d) (magic == magic_probe)
      (dispatch_decoded-Touches f d r.peer_addr (decode_probe r.payload))
      (if_elim (Touches d) (magic == magic_loss_report)
        (dispatch_from-Touches d r (read_addr host_id_from_inner_addr r.peer_addr))
        (refl, inl refl))

dispatch_payload-Touches :
    (f : Fabric) (d : MrcDaemon) (r : Received) (payload : Bytes)
    → Touches d (dispatch_payload f d r payload)
dispatch_payload-Touches f d r [] = (refl, inl refl)
dispatch_payload-Touches f d r (magic ∷ rest) =
    of_magic (dispatch_magic-Touches f (take_in d r) r magic)
  where
    of_magic : {e : MrcDaemon} → Touches (take_in d r) e → Touches d e
    of_magic (demux, inl same) = (demux, inl same)
    of_magic (demux, inr (flow, u)) = (
      demux,
      inr (
        flow,
        record {
          before = u.before;
          after = u.after;
          found = u.found;
          same = u.same;
          stored = u.stored;
        },
      ),
    )

-- A flow has its agent.
abbrev pub Serves : DaemonFlow → SenderMrcAgent → Type 0
Serves flow a = (a.tenant ≡ flow.0) × (a.dst_id ≡ flow.1)

-- Every agent is its flow's, and every entry of `_demux` names a flow to that host that has an agent.
pub record IsRouted (d : MrcDaemon) : Type 0 where
  pub agents :
      (flow : DaemonFlow) (a : SenderMrcAgent)
      → find flow_discrete flow d.agents ≡ some a
      → Serves flow a
  pub demux :
      (dst_id : ℕ) (flow : DaemonFlow)
      → find ℕ_discrete dst_id d.demux ≡ some flow
      → (flow.1 ≡ dst_id) × ((a : SenderMrcAgent) × (find flow_discrete flow d.agents ≡ some a))

-- A flow's agent replaced by one of the same flow, or added.
pub put-Serves :
    (agents : List (DaemonFlow × SenderMrcAgent)) (flow : DaemonFlow) (a : SenderMrcAgent)
    → Serves flow a
    → ((k : DaemonFlow) (b : SenderMrcAgent) → find flow_discrete k agents ≡ some b → Serves k b)
    → (k : DaemonFlow) (b : SenderMrcAgent)
    → find flow_discrete k (put flow_discrete flow a agents) ≡ some b
    → Serves k b
put-Serves agents flow a h all k b e = elim (flow_discrete flow k) [
  | yes same ↦
      let found : some a ≡ some b =
        sym (find-put_same flow_discrete flow a agents)
        ∙ ap (λ j. find flow_discrete j (put flow_discrete flow a agents)) same
        ∙ e in
      subst (λ j. Serves j b) same (subst (Serves flow) (some-injective a b found) h)
  | no other ↦ all k b (sym (find-put_ne flow_discrete k flow a agents other) ∙ e)
]

pub put-has :
    (agents : List (DaemonFlow × SenderMrcAgent)) (flow k : DaemonFlow) (a : SenderMrcAgent)
    → (b : SenderMrcAgent) × (find flow_discrete k agents ≡ some b)
    → (b : SenderMrcAgent) × (find flow_discrete k (put flow_discrete flow a agents) ≡ some b)
put-has agents flow k a (b, e) = elim (flow_discrete flow k) [
  | yes same ↦ (
    a,
    ap (λ j. find flow_discrete j (put flow_discrete flow a agents)) (sym same)
        ∙ find-put_same flow_discrete flow a agents,
  )
  | no other ↦ (b, find-put_ne flow_discrete k flow a agents other ∙ e)
]

Touches-IsRouted : (d e : MrcDaemon) → Touches d e → IsRouted d → IsRouted e
Touches-IsRouted d e (demux, inl agents) h = record {
  agents = λ flow a k. h.agents flow a (ap (find flow_discrete flow) (sym agents) ∙ k);
  demux = λ dst_id flow k.
      let (host, (a, found)) = h.demux dst_id flow (ap (find ℕ_discrete dst_id) (sym demux) ∙ k) in
      (host, (a, ap (find flow_discrete flow) agents ∙ found));
}
Touches-IsRouted d e (demux, inr (flow, u)) h = record {
  agents = λ k b found.
      put-Serves d.agents flow u.after (serves_after u (h.agents flow u.before u.found)) h.agents k
        b (ap (find flow_discrete k) (sym u.stored) ∙ found);
  demux = λ dst_id k at.
      let (host, has) = h.demux dst_id k (ap (find ℕ_discrete dst_id) (sym demux) ∙ at) in
      let (b, found) = put-has d.agents flow k u.after has in
      (host, (b, ap (find flow_discrete k) u.stored ∙ found));
}
  where
    serves_after :
        {d e : MrcDaemon} {flow : DaemonFlow} (u : IsUpdate d e flow)
        → Serves flow u.before
        → Serves flow u.after
    serves_after u (tenant, dst_id) = (u.same.tenant ∙ tenant, u.same.dst_id ∙ dst_id)

dispatch-IsRouted :
    (f : Fabric) (d : MrcDaemon) (r : Received) → IsRouted d → IsRouted (dispatch f d r)
unfolding dispatch
dispatch-IsRouted f d r h =
    Touches-IsRouted d (dispatch_payload f d r r.payload) (dispatch_payload-Touches f d r r.payload)
      h

-- What packets do not change: the entries of `_demux`.
dispatch-demux : (f : Fabric) (d : MrcDaemon) (r : Received) → (dispatch f d r).demux ≡ d.demux
unfolding dispatch
dispatch-demux f d r = (dispatch_payload-Touches f d r r.payload).0

pub dispatch_all-IsRouted :
    (f : Fabric) (rs : List Received) (d : MrcDaemon) → IsRouted d → IsRouted (dispatch_all f d rs)
unfolding dispatch_all
dispatch_all-IsRouted f [] d h = h
dispatch_all-IsRouted f (r ∷ rs) d h =
    dispatch_all-IsRouted f rs (dispatch f d r) (dispatch-IsRouted f d r h)

pub dispatch_all-demux :
    (f : Fabric) (rs : List Received) (d : MrcDaemon) → (dispatch_all f d rs).demux ≡ d.demux
unfolding dispatch_all
dispatch_all-demux f [] d = refl
dispatch_all-demux f (r ∷ rs) d = dispatch_all-demux f rs (dispatch f d r) ∙ dispatch-demux f d r
