-- ===== src/Runner/Frame.antt =====
-- srv6_mrc/runner.py: the payload of a data packet, and the parse of a captured frame. `inet_ntop` gives each address
-- its own text; the sixteen bytes stand for that text here.
use srv6_mrc_emulator.Common.{
  ℕ, zero, suc, ◌+◌, ◌-◌, ◌/◌, ◌^◌, Bool, not, ◌&&◌, ◌||◌, List, [], ◌∷◌, ◌++◌, Option, none, some,
  ltb, leb, ◌==◌, if◌then◌else◌, min, length, take, drop, get_or, Result, ok, raise, guard, ◌>>◌,
  struct_error,
}
use srv6_mrc_emulator.Wire.Struct.{pack, unpack, be_value}
use srv6_mrc_emulator.Wire.Defs.{Bytes}

-- "!QBB"
abbrev pub payload_hdr : List ℕ
payload_hdr = 8 ∷ 1 ∷ 1 ∷ []

abbrev pub payload_hdr_len : ℕ
payload_hdr_len = 10

-- b"X" * 32
abbrev pub pad_from : ℕ → Bytes
pad_from zero = []
pad_from (suc n) = 88 ∷ pad_from n

abbrev pub pad : Bytes
pad = pad_from 32

-- struct.pack(_PAYLOAD_HDR, seq, plane, path)
unfoldable pub pack_header : ℕ → ℕ → ℕ → Result Bytes
pack_header seq plane path = do
  guard (ltb seq (2 ^ 64) && (ltb plane 256 && ltb path 256)) struct_error
  ok (pack payload_hdr (seq ∷ plane ∷ path ∷ []))

abbrev pub padded : Result Bytes → Result Bytes
padded (raise e) = raise e
padded (ok header) = ok (header ++ pad)

unfoldable pub encode_payload : ℕ → ℕ → ℕ → Result Bytes
encode_payload seq plane path = padded (pack_header seq plane path)

abbrev pub three_fields : List ℕ → Option (ℕ × (ℕ × ℕ))
three_fields (seq ∷ plane ∷ path ∷ []) = some (seq, (plane, path))
three_fields _ = none

unfoldable pub parse_payload : Bytes → Option (ℕ × (ℕ × ℕ))
parse_payload raw =
    if ltb (length raw) payload_hdr_len
    then none
    else three_fields (unpack payload_hdr (take payload_hdr_len raw))

-- frame[a:a + n]
abbrev pub slice : ℕ → ℕ → Bytes → Bytes
slice a n frame = take n (drop a frame)

-- int.from_bytes(frame[a:a + 2], "big")
abbrev pub u16_at : ℕ → Bytes → ℕ
u16_at a frame = be_value 0 (slice a 2 frame)

-- frame[a]
abbrev pub byte_at : ℕ → Bytes → ℕ
byte_at a frame = get_or (drop a frame) 0 0

abbrev pub is_vlan : ℕ → Bool
is_vlan etype = etype == 0x8100 || etype == 0x88A8

-- The loop over VLAN tags, which moves four bytes on within the frame: its length is fuel enough.
unfoldable pub skip_tags : ℕ → Bytes → ℕ → ℕ
unfolding be_value
skip_tags zero frame off = off
skip_tags (suc fuel) frame off =
    let rest = skip_tags fuel frame (off + 4) in
    if is_vlan (u16_at off frame) && leb (off + 6) (length frame) then rest else off

-- frame[ip] >> 4
abbrev pub version_at : ℕ → Bytes → ℕ
version_at ip frame = byte_at ip frame / 16

pub record Parsed : Type 0 where
  pub inner_src : Bytes
  pub inner_dst : Bytes
  pub sport : ℕ
  pub dport : ℕ
  pub udp_payload : Bytes

-- The end of the packet: the header at `ip` and its payload, within `end`.
abbrev pub packet_end : ℕ → ℕ → Bytes → ℕ
packet_end end ip frame = min end (ip + 40 + u16_at (ip + 4) frame)

unfoldable pub parse_udp : Bytes → ℕ → ℕ → Option Parsed
unfolding be_value
parse_udp frame ip end =
    let udp = ip + 40 in
    if not (byte_at (ip + 6) frame == 17) || ltb end (udp + 8)
    then none
    else some (record {
      inner_src = slice (ip + 8) 16 frame;
      inner_dst = slice (ip + 24) 16 frame;
      sport = u16_at udp frame;
      dport = u16_at (udp + 2) frame;
      udp_payload = slice (udp + 8) (end - (udp + 8)) frame;
    })

-- nh == 41: the inner IPv6 packet carries the UDP.
unfoldable pub parse_ip : Bytes → ℕ → ℕ → Option Parsed
unfolding be_value
parse_ip frame ip end =
    if byte_at (ip + 6) frame == 41
    then (if ltb end (ip + 40 + 40) || not (version_at (ip + 40) frame == 6)
        then none
        else parse_udp frame (ip + 40) (packet_end end (ip + 40) frame))
    else parse_udp frame ip end

unfoldable pub parse_frame : Bytes → Option Parsed
unfolding be_value
parse_frame frame =
    let off = skip_tags (length frame) frame 12 in
    let ip = off + 2 in
    if ltb (length frame) 14
    then none
    else if not (u16_at off frame == 0x86DD)
        || ltb (length frame) (ip + 40)
        || not (version_at ip frame == 6)
    then none
    else parse_ip frame ip (packet_end (length frame) ip frame)

-- udp_payload[12:-4], of more than sixteen bytes
unfoldable pub unwrap_bth : Bytes → Option Bytes
unwrap_bth udp_payload =
    if leb (length udp_payload) 16
    then none
    else some (slice 12 (length udp_payload - 4 - 12) udp_payload)
