-- ===== src/Agent/Receiver.antt =====
-- srv6_mrc/mrc/agent.py: `ReceiverMrcAgent`. A flow's key is (tenant id, source, destination), the shape
-- that the callers use. Whether a send works is an argument.
use native.Mathlib.Decide.{ℕ_discrete}
use mathlib.Core.HLevel.{×_discrete}
use srv6_mrc_emulator.Common.{
  ℕ, ◌+◌, Bool, true, false, List, [], ◌∷◌, Option, none, some, Result, ok, raise,
}
use srv6_mrc_emulator.Common.Dict.{find, put}
use srv6_mrc_emulator.Wire.Defs.{
  Bytes, LossReport, Nack, make_nack, encode_nack, encode_loss_report,
}
use srv6_mrc_emulator.LossWindow.Defs.{
  LossWindowTable, record_packet, record_trimmed as table_trimmed, snapshot_and_reset, known_flows,
}

abbrev pub FlowId : Type 0
FlowId = ℕ × (ℕ × ℕ)

abbrev pub flow_discrete : Discrete FlowId
flow_discrete = ×_discrete ℕ_discrete (×_discrete ℕ_discrete ℕ_discrete)

abbrev pub sender_discrete : Discrete (ℕ × ℕ)
sender_discrete = ×_discrete ℕ_discrete ℕ_discrete

pub record SenderAddr : Type 0 where
  pub src_id : ℕ
  pub last_plane : ℕ
  pub last_path : ℕ

pub record ReceiverMrcAgent : Type 0 where
  pub my_id : ℕ
  pub loss_table : LossWindowTable FlowId
  pub senders : List ((ℕ × ℕ) × SenderAddr)
  pub trimmed_seen : ℕ
  pub nacks_sent : ℕ
  pub nack_send_errors : ℕ

-- What the agent hands to the transport. A NACK's port, 9800 and the receiver's id, is left out.
pub record Datagram : Type 0 where
  pub plane : ℕ
  pub path : ℕ
  pub dst_leaf : ℕ
  pub payload : Bytes

abbrev pub sender_of : ReceiverMrcAgent → FlowId → Option SenderAddr
sender_of a (tid, (sid, did)) = find sender_discrete (tid, sid) a.senders

abbrev pub learn :
    ReceiverMrcAgent
    → FlowId
    → ℕ
    → ℕ
    → Result (LossWindowTable FlowId)
    → ReceiverMrcAgent × Result (Unit {0})
learn a flow plane path (raise e) = (a, raise e)
learn a (tid, (sid, did)) plane path (ok t) = (
  record a {
    loss_table = t;
    senders =
        put sender_discrete (tid, sid)
          (record { src_id = sid; last_plane = plane; last_path = path }) a.senders;
  },
  ok tt,
)

unfoldable pub record_data :
    ReceiverMrcAgent → FlowId → ℕ → ℕ → ℕ → ReceiverMrcAgent × Result (Unit {0})
record_data a flow plane path seq =
    learn a flow plane path (record_packet flow_discrete a.loss_table flow plane path seq)

-- The EV of a NACK: the sender's last one, or the trimmed packet's own.
abbrev pub reverse_ev : Option SenderAddr → ℕ → ℕ → ℕ × ℕ
reverse_ev none plane path = (plane, path)
reverse_ev (some s) plane path = (s.last_plane, s.last_path)

abbrev pub count_send : Bool → ReceiverMrcAgent → ReceiverMrcAgent
count_send true a = record a { nacks_sent = a.nacks_sent + 1 }
count_send false a = record a { nack_send_errors = a.nack_send_errors + 1 }

abbrev pub send_nack :
    ReceiverMrcAgent → FlowId → ℕ × ℕ → Bool → Result Nack → ReceiverMrcAgent × Result Datagram
send_nack a flow ev works (raise e) = (a, raise e)
send_nack a (tid, (sid, did)) (plane, path) works (ok n) = (
  count_send works a,
  ok (record { plane = plane; path = path; dst_leaf = sid; payload = encode_nack n }),
)

abbrev pub nack_trimmed :
    ReceiverMrcAgent
    → FlowId
    → ℕ
    → ℕ
    → ℕ
    → Bool
    → Result (LossWindowTable FlowId)
    → ReceiverMrcAgent × Result Datagram
nack_trimmed a flow plane path seq works (raise e) = (a, raise e)
nack_trimmed a (tid, (sid, did)) plane path seq works (ok t) =
    send_nack (record a { loss_table = t; trimmed_seen = a.trimmed_seen + 1 }) (tid, (sid, did))
      (reverse_ev (sender_of a (tid, (sid, did))) plane path) works
      (make_nack (record {
        plane_id = plane;
        path_id = path;
        tenant_id = tid;
        src_id = sid;
        dst_id = a.my_id;
        seq = seq;
      }))

-- The NACK that is sent, or an error of the arguments.
unfoldable pub record_trimmed :
    ReceiverMrcAgent → FlowId → ℕ → ℕ → ℕ → Bool → ReceiverMrcAgent × Result Datagram
record_trimmed a flow plane path seq works =
    nack_trimmed a flow plane path seq works
      (table_trimmed flow_discrete a.loss_table flow plane path)

-- The report's datagram: none for an unknown sender or if the encoder raises, whose error is caught.
abbrev pub address_report : Option SenderAddr → Result Bytes → Option Datagram
address_report none payload = none
address_report (some s) (raise e) = none
address_report (some s) (ok payload) =
    some
      (record { plane = s.last_plane; path = s.last_path; dst_leaf = s.src_id; payload = payload })

abbrev pub report_datagram : Option SenderAddr → Result LossReport → Result (Option Datagram)
report_datagram s (raise e) = raise e
report_datagram s (ok r) = elim r.planes [
  | [] ↦ ok none
  | rec ∷ recs ↦ ok (address_report s (encode_loss_report r.window_id (rec ∷ recs)))
]

-- The body of the loop of `_emit_one_round`. An error of `snapshot_and_reset` is not caught.
unfoldable pub emit_report : ReceiverMrcAgent → FlowId → ReceiverMrcAgent × Result (Option Datagram)
emit_report a flow =
    let closed = snapshot_and_reset flow_discrete a.loss_table flow in
    (record a { loss_table = closed.0 }, report_datagram (sender_of a flow) closed.1)

abbrev pub add_datagram : Option Datagram → List Datagram → List Datagram
add_datagram none ds = ds
add_datagram (some d) ds = d ∷ ds

abbrev pub then_emit :
    Result (Option Datagram)
    → ReceiverMrcAgent × Result (List Datagram)
    → ReceiverMrcAgent
    → ReceiverMrcAgent × Result (List Datagram)
then_emit (raise e) rest a = (a, raise e)
then_emit (ok d) (a', raise e) a = (a', raise e)
then_emit (ok d) (a', ok ds) a = (a', ok (add_datagram d ds))

unfoldable pub emit_reports :
    List FlowId → ReceiverMrcAgent → ReceiverMrcAgent × Result (List Datagram)
emit_reports [] a = (a, ok [])
emit_reports (flow ∷ flows) a =
    let (a', d) = emit_report a flow in then_emit d (emit_reports flows a') a'

unfoldable pub emit_one_round : ReceiverMrcAgent → ReceiverMrcAgent × Result (List Datagram)
emit_one_round a = emit_reports (known_flows flow_discrete a.loss_table) a
