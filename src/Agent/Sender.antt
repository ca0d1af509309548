-- ===== src/Agent/Sender.antt =====
-- srv6_mrc/mrc/agent.py: `SenderMrcAgent`. Its threads' steps are functions; whether a send works, the
-- clock and the counts of another process are arguments.
use Prim.Native.String.{String}
use srv6_mrc_emulator.Common.{
  ℕ, ◌+◌, ◌*◌, ◌%◌, Bool, true, false, not, ◌&&◌, ◌||◌, List, [], ◌∷◌, map, Option, none, some, ltb,
  ◌==◌, if◌then◌else◌, Grid, set_cell, cells, range, Result, ok, raise,
}
use srv6_mrc_emulator.Wire.Defs.{Bytes, LossReport, encode_probe, decode_loss_report}
use srv6_mrc_emulator.EvState.Table.{
  EvStateTable, record_probe_sent, record_probe_recv as table_probe_recv, tick_tenant,
}
use srv6_mrc_emulator.Topo.Defs.{Shape}
use srv6_mrc_emulator.LossCompute.Ring.{SentWindowRing, push}
use srv6_mrc_emulator.LossCompute.Fusion.{
  Fusion, Outcome, min_sent_for_absent_loss, apply_loss_report,
}

pub record SenderMrcAgent : Type 0 where
  pub tenant : String
  pub tenant_id : ℕ
  pub src_id : ℕ
  pub dst_id : ℕ
  pub max_window_skew_ms : ℕ
  pub fusion : Fusion
  pub sent_ring : SentWindowRing
  pub current_window_sent : Grid ℕ
  pub current_window_start_ns : ℕ
  pub current_window_id : ℕ

abbrev pub with_table : SenderMrcAgent → EvStateTable → SenderMrcAgent
with_table a t = record a { fusion = record (a.fusion) { table = t } }

-- A call on the table whose ValueError is caught.
abbrev pub ignore_raise : SenderMrcAgent → Result EvStateTable → SenderMrcAgent
ignore_raise a (ok t) = with_table a t
ignore_raise a (raise e) = a

unfoldable pub record_sent : Shape → SenderMrcAgent → ℕ → ℕ → SenderMrcAgent
record_sent sh a plane path =
    if ltb plane sh.num_planes && ltb path sh.num_spines
    then record a {
      current_window_sent =
          set_cell a.current_window_sent plane path (a.current_window_sent plane path + 1);
    }
    else a

unfoldable pub record_probe_recv : SenderMrcAgent → ℕ → ℕ → SenderMrcAgent
record_probe_recv a plane path =
    ignore_raise a (table_probe_recv a.fusion.table a.tenant plane path)

-- `_window_loop`, when the probe tick is due.
unfoldable pub probe_tick : SenderMrcAgent → SenderMrcAgent
probe_tick a = ignore_raise a (tick_tenant a.fusion.table a.tenant)

-- `_emit_loop`, one probe: the agent after it, and the datagram if it was sent.
abbrev pub finish_emit :
    SenderMrcAgent → ℕ → ℕ → Bool → Result Bytes → SenderMrcAgent × Option Bytes
finish_emit a plane path works (raise e) = (a, none)
finish_emit a plane path false (ok payload) = (a, none)
finish_emit a plane path true (ok payload) =
    (ignore_raise a (record_probe_sent a.fusion.table a.tenant plane path), some payload)

unfoldable pub emit_probe : SenderMrcAgent → ℕ → ℕ → Bool → SenderMrcAgent × Option Bytes
emit_probe a plane path works =
    finish_emit a plane path works (encode_probe plane path a.tenant_id a.src_id a.dst_id)

-- The two loops of a round, with which sends work.
unfoldable pub emit_all : Grid Bool → List (ℕ × ℕ) → SenderMrcAgent → SenderMrcAgent
emit_all works [] a = a
emit_all works ((plane, path) ∷ cs) a =
    emit_all works cs (emit_probe a plane path (works plane path)).0

unfoldable pub emit_round : Shape → Grid Bool → SenderMrcAgent → SenderMrcAgent
emit_round sh works a = emit_all works (cells sh.num_planes sh.num_spines) a

-- `_rotate_window`: for path, n in enumerate(row[:NUM_SPINES]), from `path` on.
unfoldable pub add_row : ℕ → ℕ → ℕ → List ℕ → Grid ℕ → Grid ℕ
add_row num_spines plane path [] sent = sent
add_row num_spines plane path (n ∷ row) sent =
    let rest =
      add_row num_spines plane (path + 1) row (set_cell sent plane path (sent plane path + n)) in
    if ltb path num_spines then rest else sent

-- for plane, row in enumerate(delta[:NUM_PLANES]), from `plane` on.
unfoldable pub add_rows : ℕ → ℕ → ℕ → List (List ℕ) → Grid ℕ → Grid ℕ
add_rows num_planes num_spines plane [] sent = sent
add_rows num_planes num_spines plane (row ∷ rows) sent =
    let rest =
      add_rows num_planes num_spines (plane + 1) rows (add_row num_spines plane 0 row sent) in
    if ltb plane num_planes then rest else sent

abbrev pub add_delta : Shape → Option (List (List ℕ)) → Grid ℕ → Grid ℕ
add_delta sh none sent = sent
add_delta sh (some delta) sent = add_rows sh.num_planes sh.num_spines 0 delta sent

unfoldable pub rows_of_window : Shape → Grid ℕ → List (List ℕ)
rows_of_window sh sent =
    map (λ plane. map (λ path. sent plane path) (range sh.num_spines)) (range sh.num_planes)

-- any(row)
unfoldable pub any_sent : List ℕ → Bool
any_sent [] = false
any_sent (n ∷ row) = not (n == 0) || any_sent row

-- any(any(row) for row in sent)
unfoldable pub any_row : List (List ℕ) → Bool
any_row [] = false
any_row (row ∷ rows) = any_sent row || any_row rows

abbrev pub keep_ring : SenderMrcAgent → Result SentWindowRing → SenderMrcAgent × Result (Unit {0})
keep_ring a (ok r) = (record a { sent_ring = r }, ok tt)
keep_ring a (raise e) = (a, raise e)

abbrev pub closed : SenderMrcAgent → ℕ → SenderMrcAgent
closed a now_ns = record a {
  current_window_sent = λ plane path. 0;
  current_window_start_ns = now_ns;
  current_window_id = (a.current_window_id + 1) % 65536;
}

unfoldable pub rotate_window :
    Shape → SenderMrcAgent → Option (List (List ℕ)) → ℕ → SenderMrcAgent × Result (Unit {0})
rotate_window sh a delta now_ns =
    let sent = rows_of_window sh (add_delta sh delta a.current_window_sent) in
    if any_row sent
    then keep_ring (closed a now_ns) (
        push a.sent_ring (record {
          start_ns = a.current_window_start_ns;
          end_ns = now_ns;
          sent = sent;
          window_id = a.current_window_id;
        }))
    else (closed a now_ns, ok tt)

abbrev pub keep_fusion : SenderMrcAgent → Outcome → SenderMrcAgent × Result (Unit {0})
keep_fusion a (f, r) = (record a { fusion = f }, r)

-- `_handle_loss_report`
abbrev pub handle_decoded :
    SenderMrcAgent → ℕ → Result LossReport → SenderMrcAgent × Result (Unit {0})
handle_decoded a received_at_ns (raise e) = (a, ok tt)
handle_decoded a received_at_ns (ok report) = keep_fusion a (
    apply_loss_report a.tenant report a.sent_ring received_at_ns (a.max_window_skew_ms * 1000000)
      min_sent_for_absent_loss a.fusion)

unfoldable pub handle_loss_report : SenderMrcAgent → Bytes → ℕ → SenderMrcAgent × Result (Unit {0})
handle_loss_report a payload received_at_ns =
    handle_decoded a received_at_ns (decode_loss_report payload)
