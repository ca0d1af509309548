-- ===== src/Wire/RoundTrip.antt =====
-- srv6_mrc/mrc/probe.py: the decoders read back what the encoders wrote.
use srv6_mrc_emulator.Common.{
  ℕ, ◌≤◌, ◌<◌, ◌≡◌, refl, ap, sym, ◌∙◌, ◌↔◌, List, [], ◌∷◌, ◌++◌, arith, value_error, Result, ok,
  raise, length, take, All, length-take, All-take,
}
use srv6_mrc_emulator.Wire.Struct.{
  pack, unpack, pack-unpack, unpack-take-pack, le-length-pack, Fits, length-pack,
}
use srv6_mrc_emulator.Wire.Defs.{
  Bytes, probe_fmt, magic_probe, probe_version, Probe, encode_probe, decode_probe, nack_fmt,
  magic_nack, nack_version, Nack, encode_nack, decode_nack, make_nack, probe_of_fields,
}

pub record IsProbe (p : Probe) : Type 0 where
  pub plane_u8 : p.plane_id ≤ 0xFF
  pub path_u8 : p.path_id ≤ 0xFF
  pub tenant_u16 : p.tenant_id ≤ 0xFFFF
  pub src_u16 : p.src_id ≤ 0xFFFF
  pub dst_u8 : p.dst_id ≤ 0xFF

abbrev pub encode : Probe → Result Bytes
encode p = encode_probe p.plane_id p.path_id p.tenant_id p.src_id p.dst_id

abbrev probe_fields : Probe → List ℕ
probe_fields p =
    magic_probe ∷ probe_version ∷ p.plane_id ∷ p.path_id ∷ p.tenant_id ∷ p.src_id ∷ p.dst_id ∷ 0
    ∷ []

probe_fields-Fits : (p : Probe) → IsProbe p → Fits probe_fmt (probe_fields p)
probe_fields-Fits p h = omega arith

-- A probe whose fields fit is encoded, in ten bytes, and decoded to the same probe whatever
-- follows those bytes in the datagram.
pub decode-encode_probe :
    (p : Probe) (rest : Bytes)
    → IsProbe p
    → (bytes : Bytes) × (encode p ≡ ok bytes)
      × (length bytes ≡ 10)
      × (decode_probe (bytes ++ rest) ≡ ok p)
unfolding encode_probe decode_probe
decode-encode_probe p rest h =
    let fits = probe_fields-Fits p h in
    (
      pack probe_fmt (probe_fields p),
      ground arith,
      length-pack probe_fmt (probe_fields p) fits,
      rw (unpack-take-pack probe_fmt (probe_fields p) rest {n = 10} fits refl)
          (ground (arith, le-length-pack probe_fmt (probe_fields p) rest {n = 10} fits refl)),
    )

-- `encode_probe` raises exactly when a field does not fit.
pub encode_probe-raise_iff : (p : Probe) → (encode p ≡ raise value_error) ↔ (¬ IsProbe p)
unfolding encode_probe
encode_probe-raise_iff p = (
  (λ e h. ground arith),
  λ h.
      let not_all : p.plane_id ≤ 0xFF
          → p.path_id ≤ 0xFF
          → p.tenant_id ≤ 0xFFFF
          → p.src_id ≤ 0xFFFF
          → p.dst_id ≤ 0xFF
          → ⊥ =
        λ a b c d e.
          h (record { plane_u8 = a; path_u8 = b; tenant_u16 = c; src_u16 = d; dst_u8 = e }) in
      ground arith,
)

probe_of_fields-inv :
    (us : List ℕ) {p : Probe}
    → probe_of_fields us ≡ ok p
    → (r : ℕ) × (us
        ≡ magic_probe ∷ probe_version ∷ p.plane_id ∷ p.path_id ∷ p.tenant_id ∷ p.src_id ∷ p.dst_id
          ∷ r ∷ [])
unfolding probe_of_fields
probe_of_fields-inv (m ∷ v ∷ a ∷ b ∷ c ∷ d ∷ e ∷ r ∷ []) h = (r, ground arith)
probe_of_fields-inv _ h = cc

-- Whatever `decode_probe` accepts begins with the ten bytes that `encode_probe` writes for the
-- decoded probe, up to the value of the reserved byte: no two probes share a datagram.
pub encode-decode_probe :
    (payload : Bytes) {p : Probe}
    → All (λ b. b < 256) payload
    → decode_probe payload ≡ ok p
    → (r : ℕ) × (take 10 payload
        ≡ pack probe_fmt (
            magic_probe ∷ probe_version ∷ p.plane_id ∷ p.path_id ∷ p.tenant_id ∷ p.src_id ∷ p.dst_id
            ∷ r ∷ []))
unfolding decode_probe
encode-decode_probe payload {p} bytes h =
    let long : 10 ≤ length payload = ground arith in
    let accepted : probe_of_fields (unpack probe_fmt (take 10 payload)) ≡ ok p = ground arith in
    let (r, fields) = probe_of_fields-inv (unpack probe_fmt (take 10 payload)) accepted in
    (
      r,
      sym (
            pack-unpack probe_fmt (take 10 payload) (All-take _ 10 payload bytes)
              (omega (arith, length-take 10 payload)))
          ∙ ap (pack probe_fmt) fields,
    )

pub record IsNack (n : Nack) : Type 0 where
  pub plane_u8 : n.plane_id ≤ 0xFF
  pub path_u8 : n.path_id ≤ 0xFF
  pub tenant_u16 : n.tenant_id ≤ 0xFFFF
  pub src_u16 : n.src_id ≤ 0xFFFF
  pub dst_u16 : n.dst_id ≤ 0xFFFF
  pub seq_u64 : n.seq ≤ 0xFFFFFFFFFFFFFFFF

abbrev nack_fields : Nack → List ℕ
nack_fields n =
    magic_nack ∷ nack_version ∷ n.plane_id ∷ n.path_id ∷ n.tenant_id ∷ n.src_id ∷ n.dst_id ∷ n.seq
    ∷ []

nack_fields-Fits : (n : Nack) → IsNack n → Fits nack_fmt (nack_fields n)
nack_fields-Fits n h = omega arith

-- A NACK that its constructor accepts is encoded in 18 bytes and decoded to the same NACK, whatever
-- follows those bytes.
pub decode-encode_nack :
    (n : Nack) (rest : Bytes)
    → make_nack n ≡ ok n
    → (length (encode_nack n) ≡ 18) × (decode_nack (encode_nack n ++ rest) ≡ ok n)
unfolding make_nack encode_nack decode_nack
decode-encode_nack n rest h =
    let valid : IsNack n = ground arith in
    let fits = nack_fields-Fits n valid in
    (
      length-pack nack_fmt (nack_fields n) fits,
      rw (unpack-take-pack nack_fmt (nack_fields n) rest {n = 18} fits refl)
          (ground (arith, le-length-pack nack_fmt (nack_fields n) rest {n = 18} fits refl)),
    )
