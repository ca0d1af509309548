-- ===== src/Agent/Reports.antt =====
-- srv6_mrc/mrc/agent.py: the loss report of a flow, from the packets to the sender's decoder.
use srv6_mrc_emulator.Common.{
  ℕ, ◌*◌, ◌≤◌, ◌<◌, ◌≡◌, ◌∙◌, ap, refl, sym, inl, inr, List, [], ◌∷◌, ◌++◌, map, some, arith,
  Result, ok, raise, length, Grid, cells, visits, visits-cells, same_cell, same_cell_self,
  same_cell→eq, Bool-cases,
}
use srv6_mrc_emulator.Common.Dict.{put, find-put_same}
use srv6_mrc_emulator.Wire.Defs.{
  Bytes, LossReport, PlaneLossRecord, make_loss_report, encode_loss_report, decode_loss_report,
}
use srv6_mrc_emulator.Wire.Reports.{cap_trimmed}
use srv6_mrc_emulator.LossWindow.Defs.{
  EvCounters, or_new, count_packet, update, LossWindowTable, window, record_packet,
  snapshot_and_reset,
}
use srv6_mrc_emulator.LossWindow.Report.{active_records}
use srv6_mrc_emulator.LossWindow.Arrivals.{snapshot_and_reset_lem}
use srv6_mrc_emulator.LossWindow.OnWire.{snapshot-on_wire}
use srv6_mrc_emulator.Agent.Receiver.{
  ReceiverMrcAgent, FlowId, flow_discrete, sender_discrete, SenderAddr, learn, record_data,
  address_report, report_datagram, emit_report,
}

length-active_records_pos :
    (evs : Grid EvCounters) (p q : ℕ) (cs : List (ℕ × ℕ))
    → 0 < (evs p q).seen
    → 0 < visits p q cs
    → 0 < length (active_records evs cs)
unfolding active_records
length-active_records_pos evs p q [] h k = omega (arith, k)
length-active_records_pos evs p q ((i, j) ∷ cs) h k = elim (Bool-cases (same_cell p q i j)) [
  | inl e ↦
      let here : 0 < (evs i j).seen =
        rw (← (same_cell→eq p q i j e).0, ← (same_cell→eq p q i j e).1) h in
      ground (arith, here)
  | inr e ↦ ground (arith, length-active_records_pos evs p q cs h, e)
]

make_loss_report-same : (r s : LossReport) → make_loss_report r ≡ ok s → s ≡ r
unfolding make_loss_report
make_loss_report-same r s h = ground arith

report_datagram-some :
    (s : SenderAddr) (id : ℕ) (planes : List PlaneLossRecord) (bytes : Bytes)
    → 0 < length planes
    → encode_loss_report id planes ≡ ok bytes
    → report_datagram (some s) (ok (record { window_id = id; planes = planes }))
      ≡ ok (
          some (record {
            plane = s.last_plane;
            path = s.last_path;
            dst_leaf = s.src_id;
            payload = bytes;
          }))
report_datagram-some s id [] bytes h e = absurd (omega (arith, h))
report_datagram-some s id (rec ∷ recs) bytes h e = ap (λ x. ok (address_report (some s) x)) e

-- The table after a packet that it accepts.
abbrev with_packet : LossWindowTable FlowId → FlowId → ℕ → ℕ → ℕ → LossWindowTable FlowId
with_packet t k plane path seq = record t {
  flows =
      put flow_discrete k (update (window flow_discrete t k) plane path (count_packet seq)) t.flows;
}

record_packet-with_packet :
    (t u : LossWindowTable FlowId) (k : FlowId) (plane path seq : ℕ)
    → record_packet flow_discrete t k plane path seq ≡ ok u
    → (u ≡ with_packet t k plane path seq) × (plane < t.num_planes) × (path < t.num_paths)
unfolding record_packet
record_packet-with_packet t u k plane path seq h = (ground arith, ground arith, ground arith)

window-with_packet :
    (t : LossWindowTable FlowId) (k : FlowId) (plane path seq : ℕ)
    → window flow_discrete (with_packet t k plane path seq) k
      ≡ update (window flow_discrete t k) plane path (count_packet seq)
window-with_packet t k plane path seq = ap or_new (
    find-put_same flow_discrete k (update (window flow_discrete t k) plane path (count_packet seq))
      t.flows)

with_packet-seen :
    (t : LossWindowTable FlowId) (k : FlowId) (plane path seq : ℕ)
    → 0 < ((window flow_discrete (with_packet t k plane path seq) k).evs plane path).seen
unfolding count_packet
with_packet-seen t k plane path seq =
    rw (window-with_packet t k plane path seq, same_cell_self plane path) omega arith

-- What a flow's report does on an EV, with any bytes after it.
record IsReported (b : ReceiverMrcAgent) (flow : FlowId) (plane path : ℕ) (rest : Bytes)
    : Type 0 where
  report : LossReport
  bytes : Bytes
  closes : (snapshot_and_reset flow_discrete b.loss_table flow).1 ≡ ok report
  not_empty : 0 < length report.planes
  sends :
      (emit_report b flow).1
      ≡ ok (some (record { plane = plane; path = path; dst_leaf = flow.1.0; payload = bytes }))
  decodes :
      decode_loss_report (bytes ++ rest)
      ≡ ok (record { window_id = report.window_id; planes = map cap_trimmed report.planes })

-- The agent after a packet that it accepts.
abbrev learned : ReceiverMrcAgent → FlowId → ℕ → ℕ → ℕ → ReceiverMrcAgent
learned a flow plane path seq =
    (learn a flow plane path (ok (with_packet a.loss_table flow plane path seq))).0

learned-IsReported :
    (a : ReceiverMrcAgent) (tid sid did plane path seq : ℕ) (rest : Bytes)
    → plane < a.loss_table.num_planes
    → path < a.loss_table.num_paths
    → a.loss_table.num_planes ≤ 256
    → a.loss_table.num_paths ≤ 256
    → a.loss_table.num_planes * a.loss_table.num_paths ≤ 0xFFFF
    → (window flow_discrete a.loss_table (tid, (sid, did))).next_window_id ≤ 0xFFFF
    → IsReported (learned a (tid, (sid, did)) plane path seq) (tid, (sid, did)) plane path rest
unfolding emit_report
learned-IsReported a tid sid did plane path seq rest hp hq hn hm total id =
    let k : FlowId = (tid, (sid, did)) in
    let t = with_packet a.loss_table k plane path seq in
    let s : SenderAddr = record { src_id = sid; last_plane = plane; last_path = path } in
    let same_id = ap (λ w. w.next_window_id) (window-with_packet a.loss_table k plane path seq) in
    let (r, bytes, closed, encoded, decoded) =
      snapshot-on_wire flow_discrete t k rest hn hm total (omega (arith, same_id, id)) in
    let records = active_records (window flow_discrete t k).evs (cells t.num_planes t.num_paths) in
    let built : LossReport = record {
      window_id = (window flow_discrete t k).next_window_id;
      planes = records;
    } in
    let same =
      make_loss_report-same built r
        (sym (ap (λ x. x.1) (snapshot_and_reset_lem flow_discrete t k hn hm)) ∙ closed) in
    let some_record : 0 < length records =
      length-active_records_pos (window flow_discrete t k).evs plane path
        (cells t.num_planes t.num_paths) (with_packet-seen a.loss_table k plane path seq)
        (omega (arith, visits-cells plane path t.num_planes t.num_paths hp hq)) in
    let pos : 0 < length r.planes =
      omega (arith, some_record, ap (λ (x : LossReport). length x.planes) same) in
    let found = find-put_same sender_discrete (tid, sid) s a.senders in
    record {
      report = r;
      bytes = bytes;
      closes = closed;
      not_empty = pos;
      decodes = decoded;
      sends =
          ap (λ o. report_datagram o (snapshot_and_reset flow_discrete t k).1) found
          ∙ ap (report_datagram (some s)) closed
          ∙ report_datagram-some s r.window_id r.planes bytes pos encoded;
    }

-- The way back to a flow's source is the EV of its last full packet: after a packet that the agent
-- accepts on an EV, in a table of at most 256 planes and 256 paths with at most 65535 EVs, the flow's
-- report is not empty and goes out in one datagram, to the flow's source, on that EV; the sender decodes
-- it, whatever follows it, to the window id and the records of the window that it closes (`trimmed`
-- counts above 65535 as 65535).
pub emit_report-last_ev :
    (a b : ReceiverMrcAgent) (tid sid did plane path seq : ℕ) (rest : Bytes)
    → record_data a (tid, (sid, did)) plane path seq ≡ (b, ok tt)
    → a.loss_table.num_planes ≤ 256
    → a.loss_table.num_paths ≤ 256
    → a.loss_table.num_planes * a.loss_table.num_paths ≤ 0xFFFF
    → (window flow_discrete a.loss_table (tid, (sid, did))).next_window_id ≤ 0xFFFF
    → (r : LossReport) × (bytes : Bytes) × ((snapshot_and_reset flow_discrete b.loss_table
          (tid, (sid, did))).1
        ≡ ok r)
      × (0 < length r.planes)
      × ((emit_report b (tid, (sid, did))).1
          ≡ ok (some (record { plane = plane; path = path; dst_leaf = sid; payload = bytes })))
      × (decode_loss_report (bytes ++ rest)
          ≡ ok (record { window_id = r.window_id; planes = map cap_trimmed r.planes }))
unfolding record_data
emit_report-last_ev a b tid sid did plane path seq rest h hn hm total id =
    let found =
      by_result (record_packet flow_discrete a.loss_table (tid, (sid, did)) plane path seq) refl
        h in
    (found.report, found.bytes, found.closes, found.not_empty, found.sends, found.decodes)
  where
    by_result :
        (x : Result (LossWindowTable FlowId))
        → record_packet flow_discrete a.loss_table (tid, (sid, did)) plane path seq ≡ x
        → learn a (tid, (sid, did)) plane path x ≡ (b, ok tt)
        → IsReported b (tid, (sid, did)) plane path rest
    by_result (raise e) made done = absurd cc
    by_result (ok u) made done =
        let (same, hp, hq) =
          record_packet-with_packet a.loss_table u (tid, (sid, did)) plane path seq made in
        let after : learned a (tid, (sid, did)) plane path seq ≡ b =
          ap (λ t. (learn a (tid, (sid, did)) plane path (ok t)).0) (sym same)
          ∙ ap (λ x. x.0) done in
        rw (← after) (learned-IsReported a tid sid did plane path seq rest hp hq hn hm total id)
