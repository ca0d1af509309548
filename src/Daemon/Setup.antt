-- ===== src/Daemon/Setup.antt =====
-- srv6_mrc/mrc/daemon.py: the flows that a new daemon serves.
use Prim.Native.String.{String}
use native.Mathlib.Decide.{ℕ_discrete}
use srv6_mrc_emulator.Common.{
  ℕ, suc, zero, ◌≡◌, ◌∙◌, sym, ap, not, List, [], ◌∷◌, some, get_elem?, ok, guard, >>=-eq-ok, ◌==◌,
  value_error, ok-injective,
}
use mathlib.Core.Path.{subst}
use srv6_mrc_emulator.Common.Dict.{find, put, find-put_same, find-put_ne}
use srv6_mrc_emulator.EvState.Defs.{EvStateConfig}
use srv6_mrc_emulator.EvState.Table.{EvStateTable, new_table, check_tenant}
use srv6_mrc_emulator.LossCompute.Ring.{new_ring}
use srv6_mrc_emulator.Topo.Addresses.{Fabric, tenant_id}
use srv6_mrc_emulator.Agent.Sender.{SenderMrcAgent}
use srv6_mrc_emulator.Daemon.Defs.{
  DaemonFlow, flow_discrete, MrcDaemon, Received, dispatch_all, new_daemon, new_agent, add_flows,
  is_empty,
}
use srv6_mrc_emulator.Daemon.Routing.{
  IsRouted, Serves, some-injective, put-Serves, put-has, dispatch_all-IsRouted, dispatch_all-demux,
}
use srv6_mrc_emulator.Daemon.Delivery.{IsServed}

new_agent-Serves :
    (f : Fabric) (tenant : String) (src_id dst_id : ℕ) (table : EvStateTable) (skew_ms clock_ns : ℕ)
    (a : SenderMrcAgent)
    → new_agent f tenant src_id dst_id table skew_ms clock_ns ≡ ok a
    → Serves (tenant, dst_id) a
unfolding new_agent
new_agent-Serves f tenant src_id dst_id table skew_ms clock_ns a h =
    let (u, planes, h1) =
      >>=-eq-ok (guard (table.setup.num_planes == f.shape.num_planes) value_error) _ h in
    let (evs, has, h2) = >>=-eq-ok (check_tenant table tenant) _ h1 in
    let (tid, known, h3) = >>=-eq-ok (tenant_id f tenant) _ h2 in
    let (ring, made, h4) = >>=-eq-ok (new_ring f.shape.num_planes f.shape.num_spines 16) _ h3 in
    let same = ok-injective _ a h4 in (sym (ap (λ b. b.tenant) same), sym (ap (λ b. b.dst_id) same))

added-IsRouted :
    (d : MrcDaemon) (tenant : String) (dst_id : ℕ) (a : SenderMrcAgent)
    → Serves (tenant, dst_id) a
    → IsRouted d
    → IsRouted (record d {
      agents = put flow_discrete (tenant, dst_id) a d.agents;
      demux = put ℕ_discrete dst_id (tenant, dst_id) d.demux;
    })
added-IsRouted d tenant dst_id a serves h = record {
  agents = put-Serves d.agents (tenant, dst_id) a serves h.agents;
  demux = λ k flow at. elim (ℕ_discrete dst_id k) [
    | yes same ↦
        let own : DaemonFlow = (tenant, dst_id) in
        let at_own : some own ≡ some flow =
          sym (find-put_same ℕ_discrete dst_id own d.demux)
          ∙ ap (λ j. find ℕ_discrete j (put ℕ_discrete dst_id own d.demux)) same
          ∙ at in
        let equal : own ≡ flow = some-injective own flow at_own in
        (
          ap (λ j. j.1) (sym equal) ∙ same,
          (
            a,
            ap (λ j. find flow_discrete j (put flow_discrete own a d.agents)) (sym equal)
                ∙ find-put_same flow_discrete own a d.agents,
          ),
        )
    | no other ↦
        let (host, has) =
          h.demux k flow
            (sym (find-put_ne ℕ_discrete k dst_id (tenant, dst_id) d.demux other) ∙ at) in
        (host, put-has d.agents (tenant, dst_id) flow a has)
  ];
}

-- A flow to a host is listed.
abbrev pub Lists : ℕ → List DaemonFlow → Type 0
Lists dst_id flows = (i : ℕ) × ((tenant : String) × (get_elem? flows i ≡ some (tenant, dst_id)))

abbrev Has : MrcDaemon → ℕ → Type 0
Has d dst_id = (flow : DaemonFlow) × (find ℕ_discrete dst_id d.demux ≡ some flow)

put-Has :
    (demux : List (ℕ × DaemonFlow)) (k dst_id : ℕ) (flow : DaemonFlow)
    → (own : DaemonFlow) × (find ℕ_discrete k demux ≡ some own)
    → (own : DaemonFlow) × (find ℕ_discrete k (put ℕ_discrete dst_id flow demux) ≡ some own)
put-Has demux k dst_id flow (own, e) = elim (ℕ_discrete dst_id k) [
  | yes same ↦ (
    flow,
    ap (λ j. find ℕ_discrete j (put ℕ_discrete dst_id flow demux)) (sym same)
        ∙ find-put_same ℕ_discrete dst_id flow demux,
  )
  | no other ↦ (own, find-put_ne ℕ_discrete k dst_id flow demux other ∙ e)
]

record IsAdded (flows : List DaemonFlow) (d e : MrcDaemon) : Type 0 where
  routed : IsRouted e
  kept : (k : ℕ) → Has d k → Has e k
  listed : (k : ℕ) → Lists k flows → Has e k

listed-Has :
    (e : MrcDaemon) (tenant : String) (dst_id : ℕ) (flows : List DaemonFlow)
    (demux : List (ℕ × DaemonFlow))
    → ((k : ℕ)
        → (own : DaemonFlow) × (find ℕ_discrete k (put ℕ_discrete dst_id (tenant, dst_id) demux)
            ≡ some own)
        → Has e k)
    → ((k : ℕ) → Lists k flows → Has e k)
    → (k : ℕ) → Lists k ((tenant, dst_id) ∷ flows)
    → Has e k
listed-Has e tenant dst_id flows demux kept listed k (zero, (name, at)) =
    let own : DaemonFlow = (tenant, dst_id) in
    let theirs : DaemonFlow = (name, k) in
    let same : dst_id ≡ k = ap (λ j. j.1) (some-injective own theirs at) in
    kept k (
      own,
      ap (λ j. find ℕ_discrete j (put ℕ_discrete dst_id own demux)) (sym same)
          ∙ find-put_same ℕ_discrete dst_id own demux,
    )
listed-Has e tenant dst_id flows demux kept listed k (suc i, (name, at)) = listed k (i, (name, at))

add_flows-IsAdded :
    (f : Fabric) (cfg : EvStateConfig) (skew_ms clock_ns : ℕ) (flows : List DaemonFlow)
    (d e : MrcDaemon)
    → IsRouted d
    → add_flows f cfg skew_ms clock_ns flows d ≡ ok e
    → IsAdded flows d e
unfolding add_flows
add_flows-IsAdded f cfg skew_ms clock_ns [] d e h k =
    let same : d ≡ e = ok-injective d e k in
    subst (IsAdded [] d) same
      (record { routed = h; kept = λ j has. has; listed = λ j (i, (tenant, at)). cc })
add_flows-IsAdded f cfg skew_ms clock_ns ((tenant, dst_id) ∷ flows) d e h k =
    let (table, made, k1) =
      >>=-eq-ok (new_table (tenant ∷ []) f.shape.num_planes f.shape.num_spines cfg) _ k in
    let (a, built, k2) =
      >>=-eq-ok (new_agent f tenant d.src_id dst_id table skew_ms clock_ns) _ k1 in
    let serves = new_agent-Serves f tenant d.src_id dst_id table skew_ms clock_ns a built in
    let rest =
      add_flows-IsAdded f cfg skew_ms clock_ns flows _ e (added-IsRouted d tenant dst_id a serves h)
        k2 in
    record {
      routed = rest.routed;
      kept = λ j has. rest.kept j (put-Has d.demux j dst_id (tenant, dst_id) has);
      listed = λ j listed. listed-Has e tenant dst_id flows d.demux rest.kept rest.listed j listed;
    }

-- A daemon that has started with a list of flows and has taken any packets has an agent for every host in the list,
-- and it is the agent of a flow to that host.
pub dispatch_all-IsServed :
    (f : Fabric) (cfg : EvStateConfig) (skew_ms clock_ns src_id : ℕ) (flows : List DaemonFlow)
    (d : MrcDaemon) (rs : List Received) (dst_id : ℕ)
    → new_daemon f cfg skew_ms clock_ns src_id flows ≡ ok d
    → Lists dst_id flows
    → (flow : DaemonFlow) × ((a : SenderMrcAgent) × IsServed (dispatch_all f d rs) dst_id flow a
        × (flow.1 ≡ dst_id)
        × Serves flow a)
unfolding new_daemon find
dispatch_all-IsServed f cfg skew_ms clock_ns src_id flows d rs dst_id h listed =
    let (u, some_flow, k) = >>=-eq-ok (guard (not (is_empty flows)) value_error) _ h in
    let added =
      add_flows-IsAdded f cfg skew_ms clock_ns flows _ d
        (record { agents = λ flow a at. absurd cc; demux = λ j flow at. absurd cc }) k in
    let (flow, at) = added.listed dst_id listed in
    let named = ap (find ℕ_discrete dst_id) (dispatch_all-demux f rs d) ∙ at in
    let routed = dispatch_all-IsRouted f rs d added.routed in
    let (host, (a, stored)) = routed.demux dst_id flow named in
    (flow, (a, record { named = named; stored = stored }, host, routed.agents flow a stored))
