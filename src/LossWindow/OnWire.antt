-- ===== src/LossWindow/OnWire.antt =====
-- srv6_mrc/mrc/loss_window.py with srv6_mrc/mrc/probe.py: a window's report survives the wire.
use srv6_mrc_emulator.Common.{
  ◌*◌, ◌≤◌, ◌≡◌, ◌∙◌, ap, ◌++◌, map, arith, length, cells, length-cells, ok,
}
use srv6_mrc_emulator.Wire.Defs.{
  Bytes, LossReport, make_loss_report, encode_loss_report, decode_loss_report,
}
use srv6_mrc_emulator.Wire.Reports.{cap_trimmed, decode-encode_loss_report}
use srv6_mrc_emulator.LossWindow.Defs.{LossWindowTable, window, snapshot_and_reset}
use srv6_mrc_emulator.LossWindow.Report.{
  active_records, active_records-IsRecord, length-active_records, cells-u8,
}
use srv6_mrc_emulator.LossWindow.Arrivals.{snapshot_and_reset_lem}

-- A table of at most 256 planes and 256 paths, with at most 65535 EVs, always closes a window with a
-- report; the encoder accepts that report, and the sender decodes it to the same window id and
-- records (`trimmed` counts above 65535 as 65535), whatever follows it in the datagram.
pub snapshot-on_wire :
    {K : Type 0} (dec : Discrete K) (t : LossWindowTable K) (k : K) (rest : Bytes)
    → t.num_planes ≤ 256
    → t.num_paths ≤ 256
    → t.num_planes * t.num_paths ≤ 0xFFFF
    → (window dec t k).next_window_id ≤ 0xFFFF
    → (r : LossReport) × (bytes : Bytes) × ((snapshot_and_reset dec t k).1 ≡ ok r)
      × (encode_loss_report r.window_id r.planes ≡ ok bytes)
      × (decode_loss_report (bytes ++ rest)
          ≡ ok (record { window_id = r.window_id; planes = map cap_trimmed r.planes }))
unfolding make_loss_report
snapshot-on_wire dec t k rest hn hm total id =
    let w = window dec t k in
    let cs = cells t.num_planes t.num_paths in
    let planes = active_records w.evs cs in
    let small : length planes ≤ 0xFFFF =
      omega (arith, length-active_records w.evs cs, length-cells t.num_planes t.num_paths) in
    let (bytes, encoded, _, _, decoded) =
      decode-encode_loss_report w.next_window_id planes rest id small
        (active_records-IsRecord w.evs cs (cells-u8 t.num_planes t.num_paths hn hm)) in
    (
      record { window_id = w.next_window_id; planes = planes },
      bytes,
      ap (λ x. x.1) (snapshot_and_reset_lem dec t k hn hm) ∙ ground arith,
      encoded,
      decoded,
    )
