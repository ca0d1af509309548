-- ===== src/Runner/Delivered.antt =====
-- srv6_mrc/runner.py: a sender's payload in a frame to this host, as the receiver takes it.
use srv6_mrc_emulator.Common.{
  ℕ, ◌^◌, ◌≡◌, ◌∙◌, refl, sym, ap, true, false, ◌&&◌, List, [], ◌∷◌, ◌++◌, append-nil, Option, some,
  ◌==◌, ltb, ltb→lt, and_true, length, take, length-append, arith, All, ok, guard, guard-ok,
  ok-injective, >>=-eq-ok, struct_error, same_list, same_list_refl,
}
use srv6_mrc_emulator.Wire.Struct.{unpack, unpack-take-pack, length-pack, Fits}
use srv6_mrc_emulator.Wire.Defs.{Bytes}
use srv6_mrc_emulator.Runner.Frame.{
  payload_hdr, pad, padded, pack_header, encode_payload, parse_payload, three_fields,
}
use srv6_mrc_emulator.Runner.Framing.{Header, IsHeader, udp}
use srv6_mrc_emulator.Runner.Capture.{
  Tag, IsTag, IsCarrier, carried, frame_of, parse_frame-frame_of,
}
use srv6_mrc_emulator.Runner.Receiver.{
  RxFlow, Receiver, Captured, spray_port, raw_payload, take_trimmed, take_packet, take_parsed,
  take_frame, handle,
}

-- A header that was packed: its bytes' number, and what they are read as, whatever follows.
record IsPacked (seq plane path : ℕ) (header : Bytes) : Type 0 where
  size : length header ≡ 10
  read : (rest : Bytes) → parse_payload (header ++ rest) ≡ some (seq, (plane, path))

pack_header-IsPacked :
    (seq plane path : ℕ) (header : Bytes)
    → pack_header seq plane path ≡ ok header
    → IsPacked seq plane path header
unfolding pack_header parse_payload
pack_header-IsPacked seq plane path header h =
    let (u, fits, made) =
      >>=-eq-ok (guard (ltb seq (2 ^ 64) && (ltb plane 256 && ltb path 256)) struct_error) _ h in
    let (a, bc) = and_true _ _ (guard-ok _ _ fits) in
    let (b, c) = and_true _ _ bc in
    let fields : Fits payload_hdr (seq ∷ plane ∷ path ∷ []) =
      (ltb→lt _ _ a, (ltb→lt _ _ b, (ltb→lt _ _ c, tt))) in
    let same = ok-injective _ header made in
    let ten : length header ≡ 10 =
      ap (length {A = ℕ}) (sym same) ∙ length-pack payload_hdr (seq ∷ plane ∷ path ∷ []) fields in
    record {
      size = ten;
      read = λ rest.
          let long : ltb (length (header ++ rest)) 10 ≡ false =
            ground (arith, length-append header rest, ten) in
          rw long (
            ap (λ bs. three_fields (unpack payload_hdr (take 10 (bs ++ rest)))) (sym same)
            ∙ ap three_fields
                (unpack-take-pack payload_hdr (seq ∷ plane ∷ path ∷ []) rest fields refl));
    }

module _ (r : Receiver) (nic now sport csum1 csum0 : ℕ) (macs : Bytes) (tags : List Tag)
    (outer : Option Header) (h : Header) (padding : Bytes) (twelve : length macs ≡ 12)
    (tagged : All IsTag tags) (carrier : IsCarrier outer) (header : IsHeader h)
    (ours : h.dst ≡ r.self_inner) where
  abbrev captured : Bytes → Captured
  captured body = record {
    nic = nic;
    now = now;
    frame = frame_of macs tags (carried outer h (udp sport spray_port csum1 csum0 body)) padding;
  }

  abbrev flow : RxFlow
  flow = (h.src, (h.dst, (sport, spray_port)))

  handle-body :
      (body : Bytes)
      → handle r (captured body) ≡ take_parsed r nic now flow body (parse_payload body)
  unfolding handle raw_payload
  handle-body body =
      let to_self : same_list h.dst r.self_inner ≡ true =
        ap (same_list h.dst) (sym ours) ∙ same_list_refl h.dst in
      ap (take_frame r nic now) (
        parse_frame-frame_of macs tags outer h sport spray_port csum1 csum0 body padding twelve
          tagged carrier header)
      ∙ rw to_self refl

  -- A frame to this host's spray port that carries a sender's full payload is delivered as that payload's number, plane
  -- and path, and one that carries the header alone is taken as the packet trimmed: with any VLAN tags and padding, and
  -- with or without the outer header.
  pub handle-encode_payload :
      (seq plane path : ℕ) (full short : Bytes)
      → encode_payload seq plane path ≡ ok full
      → pack_header seq plane path ≡ ok short
      → (handle r (captured full) ≡ take_packet r nic flow seq plane path now)
        × (handle r (captured short) ≡ take_trimmed r flow seq plane path now)
  unfolding encode_payload
  handle-encode_payload seq plane path full short whole part =
      let packed = pack_header-IsPacked seq plane path short part in
      let same : short ++ pad ≡ full = ok-injective _ full (ap padded (sym part) ∙ whole) in
      let full_size : (length full == 10) ≡ false =
        ground (arith, ap (length {A = ℕ}) (sym same), length-append short pad, packed.size) in
      let short_size : (length short == 10) ≡ true = ground (arith, packed.size) in
      (
        handle-body full
            ∙ ap (take_parsed r nic now flow full) (ap parse_payload (sym same) ∙ packed.read pad)
            ∙ rw full_size refl,
        handle-body short
            ∙ ap (take_parsed r nic now flow short)
                (ap parse_payload (sym (append-nil short)) ∙ packed.read [])
            ∙ rw short_size refl,
      )
