-- ===== src/Agent/Calls.antt =====
-- srv6_mrc/mrc/agent.py: the sender's agent under any calls between two rotations of its window.
use srv6_mrc_emulator.Common.{
  ℕ, suc, ◌+◌, ◌<◌, ◌≡◌, ◌∙◌, ap, refl, Bool, true, false, List, [], ◌∷◌, if◌then◌else◌, arith,
  Grid, same_cell, same_cell→eq, Result, ok, raise,
}
use srv6_mrc_emulator.Wire.Defs.{Bytes, LossReport, encode_probe, decode_loss_report}
use srv6_mrc_emulator.EvState.Table.{
  EvStateTable, record_probe_sent, record_probe_recv as table_probe_recv, tick_tenant,
}
use srv6_mrc_emulator.Topo.Defs.{Shape}
use srv6_mrc_emulator.Agent.Sender.{
  SenderMrcAgent, ignore_raise, record_sent, record_probe_recv, probe_tick, emit_probe,
  handle_decoded, handle_loss_report, finish_emit,
}

-- What reaches the agent between two rotations.
pub data Call : Type 0 where
  sent_call recv_call : ℕ → ℕ → Call
  emit_call : ℕ → ℕ → Bool → Call
  tick_call : Call
  report_call : Bytes → ℕ → Call

unfoldable pub take_call : Shape → SenderMrcAgent → Call → SenderMrcAgent
take_call sh a (sent_call p q) = record_sent sh a p q
take_call sh a (recv_call p q) = record_probe_recv a p q
take_call sh a (emit_call p q works) = (emit_probe a p q works).0
take_call sh a tick_call = probe_tick a
take_call sh a (report_call payload at) = (handle_loss_report a payload at).0

unfoldable pub take_calls : Shape → SenderMrcAgent → List Call → SenderMrcAgent
take_calls sh a [] = a
take_calls sh a (c ∷ cs) = take_calls sh (take_call sh a c) cs

abbrev pub packets_sent : ℕ → ℕ → List Call → ℕ
packets_sent p q [] = 0
packets_sent p q (sent_call i j ∷ cs) =
    if same_cell p q i j then suc (packets_sent p q cs) else packets_sent p q cs
packets_sent p q (recv_call i j ∷ cs) = packets_sent p q cs
packets_sent p q (emit_call i j works ∷ cs) = packets_sent p q cs
packets_sent p q (tick_call ∷ cs) = packets_sent p q cs
packets_sent p q (report_call payload at ∷ cs) = packets_sent p q cs

-- The part of the agent that only packets and rotations change.
record SameWindow (a b : SenderMrcAgent) : Type 0 where
  counts : b.current_window_sent ≡ a.current_window_sent
  starts : b.current_window_start_ns ≡ a.current_window_start_ns
  rings : b.sent_ring ≡ a.sent_ring

ignore_raise-SameWindow :
    (a : SenderMrcAgent) (r : Result EvStateTable) → SameWindow a (ignore_raise a r)
ignore_raise-SameWindow a (ok t) = record { counts = refl; starts = refl; rings = refl }
ignore_raise-SameWindow a (raise e) = record { counts = refl; starts = refl; rings = refl }

emit-SameWindow :
    (a : SenderMrcAgent) (p q : ℕ) (works : Bool) (payload : Result Bytes)
    → SameWindow a (finish_emit a p q works payload).0
emit-SameWindow a p q works (raise e) = record { counts = refl; starts = refl; rings = refl }
emit-SameWindow a p q false (ok payload) = record { counts = refl; starts = refl; rings = refl }
emit-SameWindow a p q true (ok payload) =
    ignore_raise-SameWindow a (record_probe_sent a.fusion.table a.tenant p q)

handle-SameWindow :
    (a : SenderMrcAgent) (at : ℕ) (report : Result LossReport)
    → SameWindow a (handle_decoded a at report).0
handle-SameWindow a at (raise e) = record { counts = refl; starts = refl; rings = refl }
handle-SameWindow a at (ok report) = record { counts = refl; starts = refl; rings = refl }

-- No call touches the ring or when the window began.
pub record SameRing (a b : SenderMrcAgent) : Type 0 where
  pub same_start : b.current_window_start_ns ≡ a.current_window_start_ns
  pub same_windows : b.sent_ring ≡ a.sent_ring

SameWindow-SameRing : (a b c : SenderMrcAgent) → SameWindow a b → SameRing b c → SameRing a c
SameWindow-SameRing a b c h k = record {
  same_start = k.same_start ∙ h.starts;
  same_windows = k.same_windows ∙ h.rings;
}

pub take_calls-SameRing :
    (sh : Shape) (a : SenderMrcAgent) (cs : List Call) → SameRing a (take_calls sh a cs)
unfolding take_calls take_call record_sent record_probe_recv probe_tick emit_probe
    handle_loss_report
take_calls-SameRing sh a [] = record { same_start = refl; same_windows = refl }
take_calls-SameRing sh a (sent_call i j ∷ cs) =
    let next = take_calls-SameRing sh (record_sent sh a i j) cs in
    record {
      same_start = ground (arith, next.same_start);
      same_windows = ground (arith, next.same_windows);
    }
take_calls-SameRing sh a (recv_call i j ∷ cs) =
    SameWindow-SameRing a (record_probe_recv a i j) (take_calls sh (record_probe_recv a i j) cs)
      (ignore_raise-SameWindow a (table_probe_recv a.fusion.table a.tenant i j))
      (take_calls-SameRing sh _ cs)
take_calls-SameRing sh a (emit_call i j works ∷ cs) =
    SameWindow-SameRing a (emit_probe a i j works).0 (take_calls sh (emit_probe a i j works).0 cs)
      (emit-SameWindow a i j works (encode_probe i j a.tenant_id a.src_id a.dst_id))
      (take_calls-SameRing sh _ cs)
take_calls-SameRing sh a (tick_call ∷ cs) =
    SameWindow-SameRing a (probe_tick a) (take_calls sh (probe_tick a) cs)
      (ignore_raise-SameWindow a (tick_tenant a.fusion.table a.tenant))
      (take_calls-SameRing sh _ cs)
take_calls-SameRing sh a (report_call payload at ∷ cs) =
    SameWindow-SameRing a (handle_loss_report a payload at).0
      (take_calls sh (handle_loss_report a payload at).0 cs)
      (handle-SameWindow a at (decode_loss_report payload)) (take_calls-SameRing sh _ cs)

module _ (sh : Shape) (p q : ℕ) (hp : p < sh.num_planes) (hq : q < sh.num_spines) where
  record_sent-count :
      (k : ℕ) (a : SenderMrcAgent) (i j : ℕ)
      → a.current_window_sent p q ≡ k
      → (record_sent sh a i j).current_window_sent p q ≡ (if same_cell p q i j then suc k else k)
  unfolding record_sent
  record_sent-count k a i j h = ground (arith, same_cell→eq p q i j)

  pub take_calls-count :
      (k : ℕ) (a : SenderMrcAgent) (cs : List Call)
      → a.current_window_sent p q ≡ k
      → (take_calls sh a cs).current_window_sent p q ≡ packets_sent p q cs + k
  unfolding take_calls take_call record_probe_recv probe_tick emit_probe handle_loss_report
  take_calls-count k a [] h = let none_more : 0 + k ≡ k = omega arith in rw none_more h
  take_calls-count k a (sent_call i j ∷ cs) h =
      take_calls-count (if same_cell p q i j then suc k else k) (record_sent sh a i j) cs
        (record_sent-count k a i j h)
      ∙ shift_hit (same_cell p q i j)
    where
      shift_hit :
          (hit : Bool)
          → packets_sent p q cs + (if hit then suc k else k)
            ≡ (if hit then suc (packets_sent p q cs) else packets_sent p q cs) + k
      shift_hit true = omega arith
      shift_hit false = refl
  take_calls-count k a (recv_call i j ∷ cs) h =
      let same = ignore_raise-SameWindow a (table_probe_recv a.fusion.table a.tenant i j) in
      take_calls-count k (record_probe_recv a i j) cs (ap (λ (g : Grid ℕ). g p q) same.counts ∙ h)
  take_calls-count k a (emit_call i j works ∷ cs) h =
      let same = emit-SameWindow a i j works (encode_probe i j a.tenant_id a.src_id a.dst_id) in
      take_calls-count k (emit_probe a i j works).0 cs (ap (λ (g : Grid ℕ). g p q) same.counts ∙ h)
  take_calls-count k a (tick_call ∷ cs) h =
      let same = ignore_raise-SameWindow a (tick_tenant a.fusion.table a.tenant) in
      take_calls-count k (probe_tick a) cs (ap (λ (g : Grid ℕ). g p q) same.counts ∙ h)
  take_calls-count k a (report_call payload at ∷ cs) h =
      let same = handle-SameWindow a at (decode_loss_report payload) in
      take_calls-count k (handle_loss_report a payload at).0 cs
        (ap (λ (g : Grid ℕ). g p q) same.counts ∙ h)
