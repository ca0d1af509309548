-- ===== src/Wire/Defs.antt =====
-- srv6_mrc/mrc/probe.py: the payload types, their range checks, the encoders and the decoders.
use srv6_mrc_emulator.Common.{
  ℕ, zero, suc, ◌+◌, ◌*◌, Bool, false, ◌||◌, not, List, [], ◌∷◌, ◌++◌, leb, ◌==◌, if◌then◌else◌,
  value_error, decode_error, Result, ok, raise, ◌>>=◌, ◌>>◌, guard, length, take, drop, min,
}
use srv6_mrc_emulator.Wire.Struct.{pack, unpack}

abbrev pub Bytes : Type 0
Bytes = List ℕ

abbrev pub probe_version : ℕ
probe_version = 4

abbrev pub loss_report_version : ℕ
loss_report_version = 2

abbrev pub loss_report_version_trimmed : ℕ
loss_report_version_trimmed = 3

abbrev pub nack_version : ℕ
nack_version = 1

abbrev pub magic_probe : ℕ
magic_probe = 0xA5

abbrev pub magic_loss_report : ℕ
magic_loss_report = 0xA7

abbrev pub magic_nack : ℕ
magic_nack = 0xA9

-- The format strings, as widths, and their sizes.
abbrev pub probe_fmt : List ℕ
probe_fmt = 1 ∷ 1 ∷ 1 ∷ 1 ∷ 2 ∷ 2 ∷ 1 ∷ 1 ∷ []

abbrev pub probe_size : ℕ
probe_size = 10

abbrev pub loss_hdr_fmt : List ℕ
loss_hdr_fmt = 1 ∷ 1 ∷ 2 ∷ 2 ∷ 2 ∷ []

abbrev pub loss_hdr_size : ℕ
loss_hdr_size = 8

abbrev pub loss_rec_fmt : List ℕ
loss_rec_fmt = 1 ∷ 1 ∷ 2 ∷ 4 ∷ 4 ∷ 4 ∷ []

abbrev pub loss_rec_size : ℕ
loss_rec_size = 16

abbrev pub nack_fmt : List ℕ
nack_fmt = 1 ∷ 1 ∷ 1 ∷ 1 ∷ 2 ∷ 2 ∷ 2 ∷ 8 ∷ []

abbrev pub nack_size : ℕ
nack_size = 18

pub record Probe : Type 0 where
  pub plane_id : ℕ
  pub path_id : ℕ
  pub tenant_id : ℕ
  pub src_id : ℕ
  pub dst_id : ℕ

pub record PlaneLossRecord : Type 0 where
  pub plane_id : ℕ
  pub path_id : ℕ
  pub seen : ℕ
  pub expected : ℕ
  pub max_gap : ℕ
  pub trimmed : ℕ

pub record Nack : Type 0 where
  pub plane_id : ℕ
  pub path_id : ℕ
  pub tenant_id : ℕ
  pub src_id : ℕ
  pub dst_id : ℕ
  pub seq : ℕ

pub record LossReport : Type 0 where
  pub window_id : ℕ
  pub planes : List PlaneLossRecord

unfoldable pub check_u8 : ℕ → Result (Unit {0})
check_u8 v = guard (leb v 0xFF) value_error

unfoldable pub check_u16 : ℕ → Result (Unit {0})
check_u16 v = guard (leb v 0xFFFF) value_error

unfoldable pub check_u32 : ℕ → Result (Unit {0})
check_u32 v = guard (leb v 0xFFFFFFFF) value_error

-- The constructors: a frozen dataclass runs its checks when it is built.
unfoldable pub make_probe : Probe → Result Probe
unfolding check_u8 check_u16
make_probe p = do
  check_u8 p.plane_id
  check_u8 p.path_id
  check_u16 p.tenant_id
  check_u16 p.src_id
  check_u8 p.dst_id
  ok p

unfoldable pub make_plane_loss_record : PlaneLossRecord → Result PlaneLossRecord
unfolding check_u8 check_u32
make_plane_loss_record r = do
  check_u8 r.plane_id
  check_u8 r.path_id
  check_u32 r.seen
  check_u32 r.expected
  check_u32 r.max_gap
  check_u32 r.trimmed
  ok r

unfoldable pub make_nack : Nack → Result Nack
unfolding check_u8 check_u16
make_nack n = do
  check_u8 n.plane_id
  check_u8 n.path_id
  check_u16 n.tenant_id
  check_u16 n.src_id
  check_u16 n.dst_id
  guard (leb n.seq 0xFFFFFFFFFFFFFFFF) value_error
  ok n

unfoldable pub make_loss_report : LossReport → Result LossReport
unfolding check_u16
make_loss_report r = do check_u16 r.window_id; ok r

unfoldable pub encode_probe : ℕ → ℕ → ℕ → ℕ → ℕ → Result Bytes
unfolding check_u8 check_u16
encode_probe plane_id path_id tenant_id src_id dst_id = do
  check_u8 plane_id
  check_u8 path_id
  check_u16 tenant_id
  check_u16 src_id
  check_u8 dst_id
  ok (
      pack probe_fmt
        (magic_probe ∷ probe_version ∷ plane_id ∷ path_id ∷ tenant_id ∷ src_id ∷ dst_id ∷ 0 ∷ []))

-- any(rec.trimmed for rec in planes)
unfoldable pub any_trimmed : List PlaneLossRecord → Bool
any_trimmed [] = false
any_trimmed (r ∷ rs) = not (r.trimmed == 0) || any_trimmed rs

unfoldable pub encode_record : Bool → PlaneLossRecord → Bytes
encode_record trims r = pack loss_rec_fmt (
    r.plane_id
    ∷ r.path_id
    ∷ (if trims then min r.trimmed 0xFFFF else 0)
    ∷ r.seen
    ∷ r.expected
    ∷ r.max_gap
    ∷ [])

unfoldable pub encode_records : Bool → List PlaneLossRecord → Bytes
encode_records trims [] = []
encode_records trims (r ∷ rs) = encode_record trims r ++ encode_records trims rs

abbrev pub report_version : Bool → ℕ
report_version trims = if trims then loss_report_version_trimmed else loss_report_version

unfoldable pub encode_loss_report : ℕ → List PlaneLossRecord → Result Bytes
unfolding check_u16
encode_loss_report window_id planes = do
  check_u16 window_id
  guard (leb (length planes) 0xFFFF) value_error
  let trims = any_trimmed planes
  ok (
      pack loss_hdr_fmt
        (magic_loss_report ∷ report_version trims ∷ window_id ∷ length planes ∷ 0 ∷ [])
      ++ encode_records trims planes)

unfoldable pub encode_nack : Nack → Bytes
encode_nack n = pack nack_fmt (
    magic_nack ∷ nack_version ∷ n.plane_id ∷ n.path_id ∷ n.tenant_id ∷ n.src_id ∷ n.dst_id ∷ n.seq
    ∷ [])

-- The tuple that `struct.unpack` returns, by its length; another length is never unpacked.
unfoldable pub probe_of_fields : List ℕ → Result Probe
unfolding make_probe
probe_of_fields (magic ∷ version ∷ plane_id ∷ path_id ∷ tenant_id ∷ src_id ∷ dst_id ∷ rsv ∷ []) = do
  guard (magic == magic_probe) decode_error
  guard (version == probe_version) decode_error
  make_probe (record {
    plane_id = plane_id;
    path_id = path_id;
    tenant_id = tenant_id;
    src_id = src_id;
    dst_id = dst_id;
  })
probe_of_fields _ = raise decode_error

unfoldable pub decode_probe : Bytes → Result Probe
unfolding probe_of_fields
decode_probe payload = do
  guard (leb probe_size (length payload)) decode_error
  probe_of_fields (unpack probe_fmt (take probe_size payload))

unfoldable pub record_of_fields : ℕ → List ℕ → Result PlaneLossRecord
unfolding make_plane_loss_record
record_of_fields version (plane_id ∷ path_id ∷ r16 ∷ seen ∷ expected ∷ max_gap ∷ []) =
    make_plane_loss_record (record {
      plane_id = plane_id;
      path_id = path_id;
      seen = seen;
      expected = expected;
      max_gap = max_gap;
      trimmed = if version == loss_report_version_trimmed then r16 else 0;
    })
record_of_fields version _ = raise decode_error

-- The loop over the records; `payload` starts at the offset `off`.
unfoldable pub decode_records : ℕ → ℕ → Bytes → Result (List PlaneLossRecord)
unfolding record_of_fields
decode_records version zero payload = ok []
decode_records version (suc n) payload = do
  r ← record_of_fields version (unpack loss_rec_fmt (take loss_rec_size payload))
  rs ← decode_records version n (drop loss_rec_size payload)
  ok (r ∷ rs)

unfoldable pub report_of_fields : Bytes → List ℕ → Result LossReport
unfolding make_loss_report
report_of_fields payload (magic ∷ version ∷ window_id ∷ num_records ∷ rsv ∷ []) = do
  guard (magic == magic_loss_report) decode_error
  guard (version == loss_report_version || version == loss_report_version_trimmed) decode_error
  guard (leb (loss_hdr_size + num_records * loss_rec_size) (length payload)) decode_error
  planes ← decode_records version num_records (drop loss_hdr_size payload)
  make_loss_report (record { window_id = window_id; planes = planes })
report_of_fields payload _ = raise decode_error

unfoldable pub decode_loss_report : Bytes → Result LossReport
unfolding report_of_fields
decode_loss_report payload = do
  guard (leb loss_hdr_size (length payload)) decode_error
  report_of_fields payload (unpack loss_hdr_fmt (take loss_hdr_size payload))

unfoldable pub nack_of_fields : List ℕ → Result Nack
unfolding make_nack
nack_of_fields (magic ∷ version ∷ plane_id ∷ path_id ∷ tenant_id ∷ src_id ∷ dst_id ∷ seq ∷ []) = do
  guard (magic == magic_nack) decode_error
  guard (version == nack_version) decode_error
  make_nack (record {
    plane_id = plane_id;
    path_id = path_id;
    tenant_id = tenant_id;
    src_id = src_id;
    dst_id = dst_id;
    seq = seq;
  })
nack_of_fields _ = raise decode_error

unfoldable pub decode_nack : Bytes → Result Nack
unfolding nack_of_fields
decode_nack payload = do
  guard (leb nack_size (length payload)) decode_error
  nack_of_fields (unpack nack_fmt (take nack_size payload))
