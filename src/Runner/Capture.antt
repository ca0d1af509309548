-- ===== src/Runner/Capture.antt =====
-- srv6_mrc/runner.py: `_parse_frame` on whole frames, with VLAN tags, with or without the outer header, and padded.
use srv6_mrc_emulator.Common.{
  ℕ, zero, suc, ◌+◌, ◌*◌, ◌≤◌, ◌≡◌, ◌∙◌, refl, ap, true, false, List, [], ◌∷◌, ◌++◌, Option, none,
  some, ltb, leb, length, drop, arith, All, length-append, length-drop, drop-append_of_length,
}
use srv6_mrc_emulator.Wire.Struct.{be_value}
use srv6_mrc_emulator.Wire.Defs.{Bytes}
use srv6_mrc_emulator.Runner.Frame.{
  u16_at, version_at, is_vlan, skip_tags, packet_end, parse_ip, parse_frame,
}
use srv6_mrc_emulator.Runner.Framing.{
  Header, IsHeader, ip6, udp, parsed, drop_at, version_here, next_here, length_here, body_here,
  fits_here, parse_udp-udp,
}

length-ip6 :
    (h : Header) (next : ℕ) (body : Bytes)
    → IsHeader h
    → length (ip6 h next body) ≡ 40 + length body
length-ip6 h next body valid = omega (
  arith,
  valid.src_len,
  valid.dst_len,
  length-append h.src (h.dst ++ body),
  length-append h.dst body,
)

-- A user's datagram, and the header in front of it.
module _ (frame : Bytes) (at : ℕ) (h : Header) (sport dport csum1 csum0 : ℕ) (body rest : Bytes)
    (valid : IsHeader h) where
  abbrev user : Bytes
  user = udp sport dport csum1 csum0 body

  parse_ip-plain :
      drop at frame ≡ ip6 h 17 user ++ rest
      → parse_ip frame at (packet_end (length frame) at frame) ≡ parsed h.src h.dst sport dport body
  unfolding parse_ip be_value
  parse_ip-plain here =
      let next = next_here frame at h 17 user rest valid here in
      let size = length_here frame at h 17 user rest valid here in
      let fits = fits_here frame at h 17 user rest valid here in
      let end : packet_end (length frame) at frame ≡ at + 40 + (8 + length body) =
        omega (arith, size, fits) in
      rw (next, end) (parse_udp-udp frame at h sport dport csum1 csum0 body rest valid here)

  parse_ip-wrapped :
      (outer : Header)
      → IsHeader outer
      → drop at frame ≡ ip6 outer 41 (ip6 h 17 user) ++ rest
      → parse_ip frame at (packet_end (length frame) at frame) ≡ parsed h.src h.dst sport dport body
  unfolding parse_ip be_value
  parse_ip-wrapped outer valid_outer here =
      let inner = ip6 h 17 user in
      let next = next_here frame at outer 41 inner rest valid_outer here in
      let size = length_here frame at outer 41 inner rest valid_outer here in
      let fits = fits_here frame at outer 41 inner rest valid_outer here in
      let inside = body_here frame at outer 41 inner rest valid_outer here in
      let version = version_here frame (at + 40) h 17 user rest valid inside in
      let inner_size = length_here frame (at + 40) h 17 user rest valid inside in
      let whole = length-ip6 h 17 user valid in
      let outer_end : packet_end (length frame) at frame ≡ at + 40 + 40 + (8 + length body) =
        omega (arith, size, fits, whole) in
      let end : packet_end (at + 40 + 40 + (8 + length body)) (at + 40) frame
          ≡ at + 40 + 40 + (8 + length body) =
        omega (arith, inner_size) in
      let room : ltb (at + 40 + 40 + (8 + length body)) (at + 40 + 40) ≡ false = ground arith in
      rw (next, outer_end, room, version, end)
        (parse_udp-udp frame (at + 40) h sport dport csum1 csum0 body rest valid inside)

-- VLAN tags: the type of each, and its control information.
pub record Tag : Type 0 where
  pub high : ℕ
  pub low : ℕ
  pub control1 : ℕ
  pub control0 : ℕ

abbrev pub IsTag : Tag → Type 0
IsTag t = is_vlan (t.high * 256 + t.low) ≡ true

abbrev pub tag_bytes : List Tag → Bytes
tag_bytes [] = []
tag_bytes (t ∷ ts) = t.high ∷ t.low ∷ t.control1 ∷ t.control0 ∷ tag_bytes ts

skip_tags-tags :
    (frame : Bytes) (ts : List Tag) (fuel off : ℕ) (s : Bytes)
    → All IsTag ts
    → length ts ≤ fuel
    → drop off frame ≡ tag_bytes ts ++ (0x86 ∷ 0xDD ∷ s)
    → skip_tags fuel frame off ≡ off + 4 * length ts
unfolding skip_tags be_value
skip_tags-tags frame [] zero off s valid enough here = omega arith
skip_tags-tags frame [] (suc fuel) off s valid enough here =
    let ipv6 : u16_at off frame ≡ 0x86DD = ap (u16_at 0) here in rw ipv6 (omega arith)
skip_tags-tags frame (t ∷ ts) zero off s valid enough here = absurd (omega (arith, enough))
skip_tags-tags frame (t ∷ ts) (suc fuel) off s valid enough here =
    let etype : u16_at off frame ≡ t.high * 256 + t.low = ap (u16_at 0) here ∙ omega arith in
    let vlan : is_vlan (u16_at off frame) ≡ true = ap is_vlan etype ∙ valid.0 in
    let room : leb (off + 6) (length frame) ≡ true = ground (
      arith,
      ap (length {A = ℕ}) here,
      length-drop off frame,
      length-append (tag_bytes ts) (0x86 ∷ 0xDD ∷ s),
    ) in
    let rest =
      skip_tags-tags frame ts fuel (off + 4) s valid.1 (omega (arith, enough))
        (drop_at frame off here 4) in
    rw (vlan, room) (rest ∙ omega arith)

-- An IPv6 packet with a user's datagram, alone or in the outer header of an SRv6 encapsulation.
abbrev pub carried : Option Header → Header → Bytes → Bytes
carried none h user = ip6 h 17 user
carried (some outer) h user = ip6 outer 41 (ip6 h 17 user)

abbrev pub IsCarrier : Option Header → Type 0
IsCarrier none = Unit {0}
IsCarrier (some outer) = IsHeader outer

-- The frame: two MAC addresses, the tags, the type of IPv6, the packet and the padding.
abbrev pub frame_of : Bytes → List Tag → Bytes → Bytes → Bytes
frame_of macs tags packet padding = macs ++ (tag_bytes tags ++ (0x86 ∷ 0xDD ∷ packet ++ padding))

length-tag_bytes : (ts : List Tag) → length (tag_bytes ts) ≡ 4 * length ts
length-tag_bytes [] = refl
length-tag_bytes (t ∷ ts) = omega (arith, length-tag_bytes ts)

drop-tag_bytes : (ts : List Tag) (s : Bytes) → drop (4 * length ts) (tag_bytes ts ++ s) ≡ s
drop-tag_bytes ts s = drop-append_of_length (4 * length ts) (tag_bytes ts) s (length-tag_bytes ts)

module _ (macs : Bytes) (tags : List Tag) (packet padding : Bytes) (twelve : length macs ≡ 12)
    (valid : All IsTag tags) where
  abbrev frame : Bytes
  frame = frame_of macs tags packet padding

  abbrev off : ℕ
  off = 12 + 4 * length tags

  tags_at : drop 12 frame ≡ tag_bytes tags ++ (0x86 ∷ 0xDD ∷ packet ++ padding)
  tags_at = drop-append_of_length 12 macs _ twelve

  type_at : drop off frame ≡ 0x86 ∷ 0xDD ∷ packet ++ padding
  type_at = drop_at frame 12 tags_at (4 * length tags) ∙ drop-tag_bytes tags _

  packet_at : drop (off + 2) frame ≡ packet ++ padding
  packet_at = drop_at frame off type_at 2

  off_is : skip_tags (length frame) frame 12 ≡ off
  off_is =
      let enough : length tags ≤ length frame = omega (
        arith,
        length-tag_bytes tags,
        length-append macs (tag_bytes tags ++ (0x86 ∷ 0xDD ∷ packet ++ padding)),
        length-append (tag_bytes tags) (0x86 ∷ 0xDD ∷ packet ++ padding),
      ) in
      skip_tags-tags frame tags (length frame) 12 (packet ++ padding) valid enough tags_at

  parse_frame-parse_ip :
      version_at (off + 2) frame ≡ 6
      → off + 2 + 40 ≤ length frame
      → parse_frame frame ≡ parse_ip frame (off + 2) (packet_end (length frame) (off + 2) frame)
  unfolding parse_frame be_value
  parse_frame-parse_ip version fits =
      let ipv6 : u16_at off frame ≡ 0x86DD = ap (u16_at 0) type_at in
      let long : ltb (length frame) 14 ≡ false = ground (arith, fits) in
      let header : ltb (length frame) (off + 2 + 40) ≡ false = ground (arith, fits) in
      rw (off_is, ipv6, long, header, version)

-- A frame with any VLAN tags and any padding, whose IPv6 packet carries a user's datagram, in the outer header of an
-- SRv6 encapsulation or not, is parsed to the addresses, the ports and the payload of that datagram.
pub parse_frame-frame_of :
    (macs : Bytes) (tags : List Tag) (outer : Option Header) (h : Header)
    (sport dport csum1 csum0 : ℕ) (body padding : Bytes)
    → length macs ≡ 12
    → All IsTag tags
    → IsCarrier outer
    → IsHeader h
    → parse_frame (frame_of macs tags (carried outer h (udp sport dport csum1 csum0 body)) padding)
      ≡ some (record {
        inner_src = h.src;
        inner_dst = h.dst;
        sport = sport;
        dport = dport;
        udp_payload = body;
      })
parse_frame-frame_of macs tags none h sport dport csum1 csum0 body padding twelve valid carrier
      header =
    let packet = ip6 h 17 (udp sport dport csum1 csum0 body) in
    let ip = 12 + 4 * length tags + 2 in
    let frame = frame_of macs tags packet padding in
    let here = packet_at macs tags packet padding twelve valid in
    let version =
      version_here frame ip h 17 (udp sport dport csum1 csum0 body) padding header here in
    let fits = fits_here frame ip h 17 (udp sport dport csum1 csum0 body) padding header here in
    parse_frame-parse_ip macs tags packet padding twelve valid version (omega (arith, fits))
    ∙ parse_ip-plain frame ip h sport dport csum1 csum0 body padding header here
parse_frame-frame_of macs tags (some outer) h sport dport csum1 csum0 body padding twelve valid
      carrier header =
    let packet = ip6 outer 41 (ip6 h 17 (udp sport dport csum1 csum0 body)) in
    let ip = 12 + 4 * length tags + 2 in
    let frame = frame_of macs tags packet padding in
    let here = packet_at macs tags packet padding twelve valid in
    let version =
      version_here frame ip outer 41 (ip6 h 17 (udp sport dport csum1 csum0 body)) padding carrier
        here in
    let fits =
      fits_here frame ip outer 41 (ip6 h 17 (udp sport dport csum1 csum0 body)) padding carrier
        here in
    parse_frame-parse_ip macs tags packet padding twelve valid version (omega (arith, fits))
    ∙ parse_ip-wrapped frame ip h sport dport csum1 csum0 body padding header outer carrier here
