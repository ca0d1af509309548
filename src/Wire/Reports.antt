-- ===== src/Wire/Reports.antt =====
-- srv6_mrc/mrc/probe.py: LOSS_REPORT payloads, their versions and their records.
use srv6_mrc_emulator.Common.{
  ℕ, zero, suc, ◌+◌, ◌*◌, ◌≤◌, ◌≡◌, refl, ap, ◌∙◌, Bool, true, false, ◌||◌, List, [], ◌∷◌, ◌++◌,
  leb, ◌==◌, arith, if◌then◌else◌, decode_error, ok, guard, length, take, drop, min, map, All,
  length-append, append_assoc, Bool-cases, >>=-eq-ok, drop-append_of_length, get_elem?, some, inl,
  inr,
}
use mathlib.Core.Path.{ap₂}
use srv6_mrc_emulator.Wire.Struct.{
  pack, unpack, unpack-take-pack, le-length-pack, length-pack, Fits,
}
use srv6_mrc_emulator.Wire.Defs.{
  Bytes, loss_hdr_fmt, loss_rec_fmt, loss_rec_size, magic_loss_report, report_version,
  PlaneLossRecord, LossReport, any_trimmed, encode_record, encode_records, encode_loss_report,
  record_of_fields, decode_records, report_of_fields, decode_loss_report,
}

-- The ranges that the constructor of a record checks.
pub record IsRecord (r : PlaneLossRecord) : Type 0 where
  pub plane_u8 : r.plane_id ≤ 0xFF
  pub path_u8 : r.path_id ≤ 0xFF
  pub seen_u32 : r.seen ≤ 0xFFFFFFFF
  pub expected_u32 : r.expected ≤ 0xFFFFFFFF
  pub max_gap_u32 : r.max_gap ≤ 0xFFFFFFFF
  pub trimmed_u32 : r.trimmed ≤ 0xFFFFFFFF

-- A record as the wire carries it: 16 bits of `trimmed`.
abbrev pub cap_trimmed : PlaneLossRecord → PlaneLossRecord
cap_trimmed r = record r { trimmed = min r.trimmed 0xFFFF }

abbrev on_wire : Bool → PlaneLossRecord → PlaneLossRecord
on_wire trims r = record r { trimmed = if trims then min r.trimmed 0xFFFF else 0 }

abbrev record_fields : Bool → PlaneLossRecord → List ℕ
record_fields trims r =
    (r.plane_id
      ∷ r.path_id
      ∷ (if trims then min r.trimmed 0xFFFF else 0)
      ∷ r.seen
      ∷ r.expected
      ∷ r.max_gap
      ∷ [])

record_fields-Fits :
    (trims : Bool) (r : PlaneLossRecord) → IsRecord r → Fits loss_rec_fmt (record_fields trims r)
record_fields-Fits true r h = omega arith
record_fields-Fits false r h = omega arith

length-encode_record :
    (trims : Bool) (r : PlaneLossRecord) → IsRecord r → length (encode_record trims r) ≡ 16
unfolding encode_record
length-encode_record trims r h =
    length-pack loss_rec_fmt (record_fields trims r) (record_fields-Fits trims r h)

length-encode_records :
    (trims : Bool) (rs : List PlaneLossRecord)
    → All IsRecord rs
    → length (encode_records trims rs) ≡ length rs * 16
unfolding encode_records
length-encode_records trims [] h = refl
length-encode_records trims (r ∷ rs) h = omega (
  arith,
  length-append (encode_record trims r) (encode_records trims rs),
  length-encode_record trims r h.0,
  length-encode_records trims rs h.1,
)

record_of_fields_lem :
    (trims : Bool) (r : PlaneLossRecord)
    → IsRecord r
    → record_of_fields (report_version trims) (record_fields trims r) ≡ ok (on_wire trims r)
unfolding record_of_fields
record_of_fields_lem true r h = ground arith
record_of_fields_lem false r h = ground arith

unpack-encode_record :
    (trims : Bool) (r : PlaneLossRecord) (rest : Bytes)
    → IsRecord r
    → unpack loss_rec_fmt (take loss_rec_size (encode_record trims r ++ rest))
      ≡ record_fields trims r
unfolding encode_record
unpack-encode_record trims r rest h =
    unpack-take-pack loss_rec_fmt (record_fields trims r) rest {n = 16}
      (record_fields-Fits trims r h) refl

decode-encode_records :
    (trims : Bool) (rs : List PlaneLossRecord) (rest : Bytes)
    → All IsRecord rs
    → decode_records (report_version trims) (length rs) (encode_records trims rs ++ rest)
      ≡ ok (map (on_wire trims) rs)
unfolding decode_records encode_records
decode-encode_records trims [] rest h = refl
decode-encode_records trims (r ∷ rs) rest h =
    rw
      (
        append_assoc,
        unpack-encode_record trims r (encode_records trims rs ++ rest) h.0,
        record_of_fields_lem trims r h.0,
        drop-append_of_length 16 (encode_record trims r) (encode_records trims rs ++ rest)
            (length-encode_record trims r h.0),
      )
      (rw (decode-encode_records trims rs rest h.1))

untrimmed :
    (rs : List PlaneLossRecord)
    → any_trimmed rs ≡ false
    → map (on_wire false) rs ≡ map cap_trimmed rs
unfolding any_trimmed
untrimmed [] h = refl
untrimmed (r ∷ rs) h =
    let none_here : r.trimmed ≡ 0 = ground arith in
    ap₂ {A = PlaneLossRecord} {B = List PlaneLossRecord} (λ x xs. x ∷ xs) (rw none_here)
      (untrimmed rs (ground arith))

on_wire-any_trimmed :
    (rs : List PlaneLossRecord) → map (on_wire (any_trimmed rs)) rs ≡ map cap_trimmed rs
on_wire-any_trimmed rs = elim (Bool-cases (any_trimmed rs)) [
  | inl e ↦ rw e
  | inr e ↦ rw e (untrimmed rs e)
]

abbrev report_fields : ℕ → List PlaneLossRecord → List ℕ
report_fields window_id planes =
    magic_loss_report ∷ report_version (any_trimmed planes) ∷ window_id ∷ length planes ∷ 0 ∷ []

report_fields-Fits :
    (window_id : ℕ) (planes : List PlaneLossRecord)
    → window_id ≤ 0xFFFF
    → length planes ≤ 0xFFFF
    → Fits loss_hdr_fmt (report_fields window_id planes)
report_fields-Fits window_id planes h k = ground arith

report_header-version :
    (w n : ℕ) (trims : Bool) (body : Bytes)
    → get_elem?
        (pack loss_hdr_fmt (magic_loss_report ∷ report_version trims ∷ w ∷ n ∷ 0 ∷ []) ++ body)
        1
      ≡ some (if trims then 3 else 2)
unfolding pack
report_header-version w n true body = refl
report_header-version w n false body = refl

report_version_known :
    (trims : Bool) → (report_version trims == 2 || report_version trims == 3) ≡ true
report_version_known true = refl
report_version_known false = refl

-- The decoder past the header, on a payload that holds all the records.
report_of_fields_lem :
    (w : ℕ) (planes : List PlaneLossRecord) (hdr rest : Bytes)
    → w ≤ 0xFFFF
    → All IsRecord planes
    → length hdr ≡ 8
    → report_of_fields
        (hdr ++ (encode_records (any_trimmed planes) planes ++ rest))
        (report_fields w planes)
      ≡ ok (record { window_id = w; planes = map cap_trimmed planes })
unfolding report_of_fields
report_of_fields_lem w planes hdr rest h valid e =
    let trims = any_trimmed planes in
    let body = encode_records trims planes in
    let records : decode_records (report_version trims) (length planes)
          (drop 8 (hdr ++ (body ++ rest)))
        ≡ ok (map cap_trimmed planes) =
      rw (drop-append_of_length 8 hdr (body ++ rest) e)
        (decode-encode_records trims planes rest valid ∙ ap ok (on_wire-any_trimmed planes)) in
    let enough : 8 + length planes * 16 ≤ length (hdr ++ (body ++ rest)) = omega (
      arith,
      length-append hdr (body ++ rest),
      length-append body rest,
      length-encode_records trims planes valid,
      e,
    ) in
    ground (arith, records, enough, report_version_known trims)

-- A report of at most 65535 records, with a 16-bit window id and records in range, is encoded and
-- decoded, whatever bytes follow: the window id, the order and every field come back, except that
-- a `trimmed` count above 65535 is read as 65535. The version byte is 3 exactly when some record
-- has trimmed packets, else 2, and the length is 8 bytes and 16 for each record.
pub decode-encode_loss_report :
    (window_id : ℕ) (planes : List PlaneLossRecord) (rest : Bytes)
    → window_id ≤ 0xFFFF
    → length planes ≤ 0xFFFF
    → All IsRecord planes
    → (bytes : Bytes) × (encode_loss_report window_id planes ≡ ok bytes)
      × (length bytes ≡ 8 + 16 * length planes)
      × (get_elem? bytes 1 ≡ some (if any_trimmed planes then 3 else 2))
      × (decode_loss_report (bytes ++ rest)
          ≡ ok (record { window_id = window_id; planes = map cap_trimmed planes }))
unfolding encode_loss_report decode_loss_report
decode-encode_loss_report w planes rest h k valid =
    let fits = report_fields-Fits w planes h k in
    let trims = any_trimmed planes in
    let body = encode_records trims planes in
    (
      pack loss_hdr_fmt (report_fields w planes) ++ body,
      ground arith,
      omega (
        arith,
        length-append (pack loss_hdr_fmt (report_fields w planes)) body,
        length-pack loss_hdr_fmt (report_fields w planes) fits,
        length-encode_records trims planes valid,
      ),
      report_header-version w (length planes) trims body,
      rw
          (
            append_assoc,
            unpack-take-pack loss_hdr_fmt (report_fields w planes) (body ++ rest) {n = 8} fits refl,
          )
          (rw
            (report_of_fields_lem w planes (pack loss_hdr_fmt (report_fields w planes)) rest h valid
              (length-pack loss_hdr_fmt (report_fields w planes) fits))
            (ground (
              arith,
              le-length-pack loss_hdr_fmt (report_fields w planes) (body ++ rest) {n = 8} fits refl,
            ))),
    )

length-decode_records :
    (version n : ℕ) (payload : Bytes) {rs : List PlaneLossRecord}
    → decode_records version n payload ≡ ok rs
    → length rs ≡ n
unfolding decode_records
length-decode_records version zero payload h = ground arith
length-decode_records version (suc n) payload h =
    let (r, _, h') =
      >>=-eq-ok (record_of_fields version (unpack loss_rec_fmt (take loss_rec_size payload))) _ h in
    let (rs', e, h'') = >>=-eq-ok (decode_records version n (drop loss_rec_size payload)) _ h' in
    ground (arith, length-decode_records version n (drop loss_rec_size payload) e)

report_of_fields-length :
    (payload : Bytes) (us : List ℕ) {r : LossReport}
    → report_of_fields payload us ≡ ok r
    → 8 + 16 * length r.planes ≤ length payload
unfolding report_of_fields
report_of_fields-length payload (m ∷ v ∷ w ∷ n ∷ z ∷ []) h =
    let (_, _, h1) = >>=-eq-ok (guard (m == magic_loss_report) decode_error) _ h in
    let (_, _, h2) = >>=-eq-ok (guard (v == 2 || v == 3) decode_error) _ h1 in
    let (_, enough, h3) = >>=-eq-ok (guard (leb (8 + n * 16) (length payload)) decode_error) _ h2 in
    let (rs, e, h4) = >>=-eq-ok (decode_records v n (drop 8 payload)) _ h3 in
    ground (arith, length-decode_records v n (drop 8 payload) e)
report_of_fields-length payload _ h = cc

-- A payload that is cut short anywhere after its eight header bytes is refused: it never yields a
-- report with fewer records than its header announces.
pub decode_loss_report-length :
    (payload : Bytes) {r : LossReport}
    → decode_loss_report payload ≡ ok r
    → 8 + 16 * length r.planes ≤ length payload
unfolding decode_loss_report
decode_loss_report-length payload {r} h =
    report_of_fields-length payload (unpack loss_hdr_fmt (take 8 payload)) {r = r} (ground arith)
