-- ===== src/Agent/Probes.antt =====
-- srv6_mrc/mrc/agent.py: a round of probes counts those that were sent.
use Prim.Native.String.{String}
use srv6_mrc_emulator.Common.{
  ℕ, ◌+◌, ◌≤◌, ◌<◌, ◌≡◌, ◌∙◌, ap, refl, sym, inl, inr, Bool, true, false, List, [], ◌∷◌, some,
  if◌then◌else◌, arith, Result, ok, raise, Grid, cells, All, IsCell, All-cells, visits,
  visits-cells, same_cell, same_cell→eq, Bool-cases,
}
use srv6_mrc_emulator.Wire.Defs.{Bytes, encode_probe, probe_fmt, magic_probe, probe_version}
use srv6_mrc_emulator.Wire.Struct.{pack}
use srv6_mrc_emulator.EvState.Defs.{Setup, TenantEvs, probe_sent}
use srv6_mrc_emulator.EvState.Table.{EvStateTable, find_tenant, record_probe_sent}
use srv6_mrc_emulator.EvState.Run.{sent_signal, apply_signal}
use srv6_mrc_emulator.EvState.Tenants.{call, call-find_same, call-setup, keep_on_raise}
use srv6_mrc_emulator.Topo.Defs.{Shape}
use srv6_mrc_emulator.Agent.Sender.{
  SenderMrcAgent, ignore_raise, finish_emit, emit_probe, emit_all, emit_round,
}

-- The agent's numbers fit in a probe, and its table of the shape has its tenant.
pub record IsReady (sh : Shape) (a : SenderMrcAgent) (s : TenantEvs) : Type 0 where
  pub planes : a.fusion.table.setup.num_planes ≡ sh.num_planes
  pub paths : a.fusion.table.setup.num_paths ≡ sh.num_spines
  pub found : find_tenant a.tenant a.fusion.table.tenants ≡ some s
  pub tenant_u16 : a.tenant_id ≤ 0xFFFF
  pub src_u16 : a.src_id ≤ 0xFFFF
  pub dst_u8 : a.dst_id ≤ 0xFF

encode_probe-some :
    (p q tid src dst : ℕ)
    → p ≤ 0xFF
    → q ≤ 0xFF
    → tid ≤ 0xFFFF
    → src ≤ 0xFFFF
    → dst ≤ 0xFF
    → (bytes : Bytes) × (encode_probe p q tid src dst ≡ ok bytes)
unfolding encode_probe
encode_probe-some p q tid src dst a b c d e =
    (pack probe_fmt (magic_probe ∷ probe_version ∷ p ∷ q ∷ tid ∷ src ∷ dst ∷ 0 ∷ []), ground arith)

-- One probe, sent or not.
abbrev counted : Bool → TenantEvs → ℕ → ℕ → TenantEvs
counted true s p q = probe_sent s p q
counted false s p q = s

ignore_raise-table :
    (a : SenderMrcAgent) (r : Result EvStateTable)
    → ignore_raise a r
      ≡ record a { fusion = record (a.fusion) { table = keep_on_raise a.fusion.table r } }
ignore_raise-table a (ok t) = refl
ignore_raise-table a (raise e) = refl

finish_emit-IsReady :
    (sh : Shape) (a : SenderMrcAgent) (s : TenantEvs) (p q : ℕ) (works : Bool) (bytes : Bytes)
    → p < sh.num_planes
    → q < sh.num_spines
    → IsReady sh a s
    → IsReady sh (finish_emit a p q works (ok bytes)).0 (counted works s p q)
unfolding call apply_signal
finish_emit-IsReady sh a s p q false bytes hp hq h = h
finish_emit-IsReady sh a s p q true bytes hp hq h =
    let t = a.fusion.table in
    let shape = call-setup t (a.tenant, sent_signal p q) in
    let same = call-find_same t a.tenant (sent_signal p q) s h.found in
    let inside : apply_signal t.setup s (sent_signal p q) ≡ probe_sent s p q = ground arith in
    rw (ignore_raise-table a (record_probe_sent t a.tenant p q)) record {
      planes = ap (λ (u : Setup). u.num_planes) shape ∙ h.planes;
      paths = ap (λ (u : Setup). u.num_paths) shape ∙ h.paths;
      found = same ∙ ap some inside;
      tenant_u16 = h.tenant_u16;
      src_u16 = h.src_u16;
      dst_u8 = h.dst_u8;
    }

-- The probes in the open bucket of an EV.
abbrev pub bucket : TenantEvs → ℕ → ℕ → ℕ
bucket s p q = (s.evs p q).current_sent

counted-bucket :
    (works : Bool) (s : TenantEvs) (i j p q : ℕ)
    → bucket (counted works s i j) p q
      ≡ bucket s p q + (if works then (if same_cell p q i j then 1 else 0) else 0)
unfolding probe_sent
counted-bucket true s i j p q = ground (arith, same_cell→eq p q i j, same_cell→eq i j p q)
counted-bucket false s i j p q = omega arith

counts_cell :
    (works : Grid Bool) (i j p q : ℕ) (cs : List (ℕ × ℕ))
    → (if works i j then (if same_cell p q i j then 1 else 0) else 0)
        + (if works p q then visits p q cs else 0)
      ≡ (if works p q then visits p q ((i, j) ∷ cs) else 0)
counts_cell works i j p q cs = elim (Bool-cases (same_cell p q i j)) [
  | inl e ↦
      let (same_p, same_q) = same_cell→eq p q i j e in
      let same : works i j ≡ works p q =
        sym (ap (λ (k : ℕ). works k q) same_p ∙ ap (λ (k : ℕ). works i k) same_q) in
      ground (arith, same, e)
  | inr e ↦ ground (arith, e)
]

emit_all-bucket :
    (sh : Shape) (works : Grid Bool) (cs : List (ℕ × ℕ)) (a : SenderMrcAgent) (s : TenantEvs)
    → sh.num_planes ≤ 256
    → sh.num_spines ≤ 256
    → All (IsCell sh.num_planes sh.num_spines) cs
    → IsReady sh a s
    → (s' : TenantEvs) × IsReady sh (emit_all works cs a) s'
      × ((p q : ℕ) → bucket s' p q ≡ bucket s p q + (if works p q then visits p q cs else 0))
unfolding emit_all emit_probe
emit_all-bucket sh works [] a s hn hm inside h = (s, h, λ p q. ground arith)
emit_all-bucket sh works ((i, j) ∷ cs) a s hn hm inside h =
    let (bytes, sent) =
      encode_probe-some i j a.tenant_id a.src_id a.dst_id (omega (arith, inside.0, hn))
        (omega (arith, inside.0, hm)) h.tenant_u16 h.src_u16 h.dst_u8 in
    let ready : IsReady sh (emit_probe a i j (works i j)).0 (counted (works i j) s i j) =
      rw sent (finish_emit-IsReady sh a s i j (works i j) bytes inside.0.0 inside.0.1 h) in
    let (s', ready', counts) = emit_all-bucket sh works cs _ _ hn hm inside.1 ready in
    (
      s',
      ready',
      λ p q.
          omega
            (arith, counts p q, counted-bucket (works i j) s i j p q, counts_cell works i j p q cs),
    )

finish_emit-tenant :
    (a : SenderMrcAgent) (p q : ℕ) (works : Bool) (payload : Result Bytes)
    → (finish_emit a p q works payload).0.tenant ≡ a.tenant
finish_emit-tenant a p q works (raise e) = refl
finish_emit-tenant a p q false (ok bytes) = refl
finish_emit-tenant a p q true (ok bytes) =
    ap (λ (b : SenderMrcAgent). b.tenant)
      (ignore_raise-table a (record_probe_sent a.fusion.table a.tenant p q))

emit_all-tenant :
    (works : Grid Bool) (cs : List (ℕ × ℕ)) (a : SenderMrcAgent)
    → (emit_all works cs a).tenant ≡ a.tenant
unfolding emit_all emit_probe
emit_all-tenant works [] a = refl
emit_all-tenant works ((i, j) ∷ cs) a =
    emit_all-tenant works cs (emit_probe a i j (works i j)).0
    ∙ finish_emit-tenant a i j (works i j) (encode_probe i j a.tenant_id a.src_id a.dst_id)

-- A round of probes counts just those that were sent: for an agent of a topology of at most 256 planes
-- and 256 spines, whose ids fit in a probe and whose table of that shape has its tenant, whichever
-- sends work, the tenant's open bucket of sent probes of each EV grows by one if the send on this EV
-- worked, and stays as it is if not.
pub emit_round-bucket :
    (sh : Shape) (works : Grid Bool) (a : SenderMrcAgent) (s : TenantEvs)
    → sh.num_planes ≤ 256
    → sh.num_spines ≤ 256
    → IsReady sh a s
    → (s' : TenantEvs) × (find_tenant a.tenant (emit_round sh works a).fusion.table.tenants
        ≡ some s')
      × ((p q : ℕ)
          → p < sh.num_planes
          → q < sh.num_spines
          → bucket s' p q ≡ bucket s p q + (if works p q then 1 else 0))
unfolding emit_round
emit_round-bucket sh works a s hn hm h =
    let cs = cells sh.num_planes sh.num_spines in
    let (s', ready, counts) =
      emit_all-bucket sh works cs a s hn hm (All-cells sh.num_planes sh.num_spines) h in
    let same =
      ap (λ (k : String). find_tenant k (emit_all works cs a).fusion.table.tenants)
        (emit_all-tenant works cs a) in
    (
      s',
      sym same ∙ ready.found,
      λ p q hp hq.
          counts p q
          ∙ ap (λ (k : ℕ). bucket s p q + (if works p q then k else 0))
              (visits-cells p q sh.num_planes sh.num_spines hp hq),
    )
