-- ===== src/Examples/Wire.antt =====
-- srv6_mrc/mrc/probe.py on small datagrams.
use srv6_mrc_emulator.Common.{
  ◌+◌, ◌*◌, ◌<◌, ◌≡◌, refl, List, [], ◌∷◌, ◌++◌, some, if◌then◌else◌, arith, All, ok, raise,
  decode_error, length, get_elem?, map,
}
use srv6_mrc_emulator.Wire.Struct
use srv6_mrc_emulator.Wire.Struct.{pack}
use srv6_mrc_emulator.Wire.Defs
use srv6_mrc_emulator.Wire.Defs.{
  Bytes, Probe, Nack, PlaneLossRecord, LossReport, make_nack, encode_nack, decode_nack,
  decode_probe, encode_loss_report, decode_loss_report, any_trimmed, probe_fmt, magic_probe,
  probe_version,
}
use srv6_mrc_emulator.Wire.RoundTrip.{IsProbe, encode}
use srv6_mrc_emulator.Wire.Reports
use srv6_mrc_emulator.Wire.Reports.{IsRecord, cap_trimmed}

program : Unit {0}
unfolding Struct.pack Struct.unpack Struct.be_bytes Struct.be_value Defs.encode_probe
    Defs.decode_probe Defs.probe_of_fields Defs.make_nack Defs.encode_nack Defs.decode_nack
    Defs.encode_loss_report Defs.decode_loss_report Defs.report_of_fields Defs.encode_records
    Defs.encode_record Defs.decode_records Defs.record_of_fields Defs.any_trimmed
program = tt

abbrev probe : Probe
probe = record { plane_id = 1; path_id = 2; tenant_id = 300; src_id = 4; dst_id = 5 }

probe-IsProbe : IsProbe probe
probe-IsProbe = omega arith

abbrev datagram : Bytes
datagram = 165 ∷ 4 ∷ 1 ∷ 2 ∷ 1 ∷ 44 ∷ 0 ∷ 4 ∷ 5 ∷ 0 ∷ []

encoded : encode probe ≡ ok datagram
unfolding program
encoded = refl

datagram-probe : decode_probe datagram ≡ ok probe
unfolding program
datagram-probe = refl

cut_short : decode_probe (1 ∷ 1 ∷ []) ≡ raise decode_error
unfolding program
cut_short = refl

abbrev too_big : Probe
too_big = record probe { path_id = 256 }

datagram-bytes : All (λ b. b < 256) datagram
datagram-bytes = omega arith

abbrev nack : Nack
nack = record { plane_id = 1; path_id = 2; tenant_id = 300; src_id = 4; dst_id = 5; seq = 70000 }

nack-made : make_nack nack ≡ ok nack
unfolding program Defs.check_u8 Defs.check_u16
nack-made = refl

abbrev clean : PlaneLossRecord
clean = record { plane_id = 0; path_id = 1; seen = 9; expected = 10; max_gap = 2; trimmed = 0 }

abbrev trimmed : PlaneLossRecord
trimmed = record { plane_id = 1; path_id = 0; seen = 3; expected = 5; max_gap = 1; trimmed = 70000 }

abbrev planes : List PlaneLossRecord
planes = clean ∷ trimmed ∷ []

planes-IsRecord : All IsRecord planes
planes-IsRecord = omega arith

decode-encode_loss_report_example :
    (bytes : Bytes) × (encode_loss_report 17 planes ≡ ok bytes)
    × (length bytes ≡ 8 + 16 * length planes)
    × (get_elem? bytes 1 ≡ some (if any_trimmed planes then 3 else 2))
    × (decode_loss_report (bytes ++ 0 ∷ [])
        ≡ ok (record { window_id = 17; planes = map cap_trimmed planes }))
decode-encode_loss_report_example =
    Reports.decode-encode_loss_report 17 planes (0 ∷ []) (omega arith) (omega arith) planes-IsRecord

abbrev report_bytes : Bytes
report_bytes =
    167 ∷ 2 ∷ 0 ∷ 17 ∷ 0 ∷ 1 ∷ 0 ∷ 0 ∷ 0 ∷ 1 ∷ 0 ∷ 0 ∷ 0 ∷ 0 ∷ 0 ∷ 9 ∷ 0 ∷ 0 ∷ 0 ∷ 10 ∷ 0 ∷ 0 ∷ 0
    ∷ 2 ∷ []

report-decoded :
    decode_loss_report report_bytes ≡ ok (record { window_id = 17; planes = clean ∷ [] })
unfolding program
report-decoded = refl
