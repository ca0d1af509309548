-- ===== src/Runner/Framing.antt =====
-- srv6_mrc/runner.py: which frames `_parse_frame` reads, and what it reads in them.
use srv6_mrc_emulator.Common.{
  ℕ, zero, suc, ◌+◌, ◌-◌, ◌/◌, ◌%◌, ◌≤◌, ◌≡◌, ◌∙◌, refl, sym, ap, false, [], ◌∷◌, ◌++◌, Option,
  some, ltb, length, take, drop, get_or, arith, length-append, length-drop, take-append_of_length,
  drop-append_of_length, append_assoc,
}
use srv6_mrc_emulator.Wire.Struct.{be_value}
use srv6_mrc_emulator.Wire.Defs.{Bytes}
use srv6_mrc_emulator.Runner.Frame.{Parsed, slice, u16_at, byte_at, version_at, parse_udp}

-- The parts of a frame. An IPv6 header's first four bytes are its version, class and flow label.
pub record Header : Type 0 where
  pub first : ℕ
  pub second : ℕ
  pub third : ℕ
  pub fourth : ℕ
  pub hop_limit : ℕ
  pub src : Bytes
  pub dst : Bytes

pub record IsHeader (h : Header) : Type 0 where
  pub version : h.first / 16 ≡ 6
  pub src_len : length h.src ≡ 16
  pub dst_len : length h.dst ≡ 16

abbrev pub ip6 : Header → ℕ → Bytes → Bytes
ip6 h next body =
    h.first
      ∷ h.second
      ∷ h.third
      ∷ h.fourth
      ∷ (length body / 256)
      ∷ (length body % 256)
      ∷ next
      ∷ h.hop_limit
      ∷ h.src
    ++ (h.dst ++ body)

abbrev pub udp : ℕ → ℕ → ℕ → ℕ → Bytes → Bytes
udp sport dport csum1 csum0 body =
    (sport / 256)
    ∷ (sport % 256)
    ∷ (dport / 256)
    ∷ (dport % 256)
    ∷ ((8 + length body) / 256)
    ∷ ((8 + length body) % 256)
    ∷ csum1
    ∷ csum0
    ∷ body

drop_nil : (n : ℕ) → drop {A = ℕ} n [] ≡ []
drop_nil zero = refl
drop_nil (suc n) = refl

drop_add : (a k : ℕ) (xs : Bytes) → drop (a + k) xs ≡ drop k (drop a xs)
drop_add zero k xs = ap (λ n. drop n xs) (omega arith)
drop_add (suc a) k [] = drop_nil (suc a + k) ∙ sym (drop_nil k)
drop_add (suc a) k (x ∷ xs) =
    let step : suc a + k ≡ suc (a + k) = omega arith in
    ap (λ n. drop n (x ∷ xs)) step ∙ drop_add a k xs

module _ (frame : Bytes) (at : ℕ) {s : Bytes} (here : drop at frame ≡ s) where
  pub drop_at : (k : ℕ) → drop (at + k) frame ≡ drop k s
  drop_at k = drop_add at k frame ∙ ap (drop k) here

  slice_at : (k n : ℕ) → slice (at + k) n frame ≡ slice k n s
  slice_at k n = ap (take n) (drop_at k)

  u16_at_offset : (k : ℕ) → u16_at (at + k) frame ≡ u16_at k s
  u16_at_offset k = ap (be_value 0) (slice_at k 2)

  byte_at_offset : (k : ℕ) → byte_at (at + k) frame ≡ byte_at k s
  byte_at_offset k = ap (λ xs. get_or xs 0 0) (drop_at k)

-- What stands in a header that begins at `at`.
module _ (frame : Bytes) (at : ℕ) (h : Header) (next : ℕ) (body rest : Bytes) (valid : IsHeader h)
    (here : drop at frame ≡ ip6 h next body ++ rest) where
  pub version_here : version_at at frame ≡ 6
  version_here = ap (λ xs. get_or xs 0 0 / 16) here ∙ valid.version

  pub next_here : byte_at (at + 6) frame ≡ next
  next_here = byte_at_offset frame at here 6

  pub length_here : u16_at (at + 4) frame ≡ length body
  unfolding be_value
  length_here = u16_at_offset frame at here 4 ∙ omega arith

  after_here : drop (at + 8) frame ≡ h.src ++ (h.dst ++ (body ++ rest))
  after_here =
      drop_at frame at here 8
      ∙ append_assoc h.src (h.dst ++ body) rest
      ∙ ap (h.src ++◌) (append_assoc h.dst body rest)

  src_here : slice (at + 8) 16 frame ≡ h.src
  src_here = ap (take 16) after_here ∙ take-append_of_length 16 h.src _ valid.src_len

  dst_at : drop (at + 24) frame ≡ h.dst ++ (body ++ rest)
  dst_at =
      let split : at + 24 ≡ at + 8 + 16 = omega arith in
      ap (λ n. drop n frame) split
      ∙ drop_at frame (at + 8) after_here 16
      ∙ drop-append_of_length 16 h.src _ valid.src_len

  dst_here : slice (at + 24) 16 frame ≡ h.dst
  dst_here = ap (take 16) dst_at ∙ take-append_of_length 16 h.dst _ valid.dst_len

  pub body_here : drop (at + 40) frame ≡ body ++ rest
  body_here =
      let split : at + 40 ≡ at + 24 + 16 = omega arith in
      ap (λ n. drop n frame) split
      ∙ drop_at frame (at + 24) dst_at 16
      ∙ drop-append_of_length 16 h.dst _ valid.dst_len

  pub fits_here : at + 40 + length body ≤ length frame
  fits_here = omega (
    arith,
    ap (length {A = ℕ}) here,
    length-drop at frame,
    valid.src_len,
    valid.dst_len,
    length-append h.src (h.dst ++ body ++ rest),
    length-append h.src (h.dst ++ body),
    length-append (h.src ++ (h.dst ++ body)) rest,
    length-append h.dst body,
  )

abbrev pub parsed : Bytes → Bytes → ℕ → ℕ → Bytes → Option Parsed
parsed src dst sport dport body =
    some (record {
      inner_src = src;
      inner_dst = dst;
      sport = sport;
      dport = dport;
      udp_payload = body;
    })

same_fields :
    {s t d e p r : Bytes} {a b x y : ℕ}
    → s ≡ t
    → d ≡ e
    → a ≡ b
    → x ≡ y
    → p ≡ r
    → parsed s d a x p ≡ parsed t e b y r
same_fields h1 h2 h3 h4 h5 = cc

pub parse_udp-udp :
    (frame : Bytes) (at : ℕ) (h : Header) (sport dport csum1 csum0 : ℕ) (body rest : Bytes)
    → IsHeader h
    → drop at frame ≡ ip6 h 17 (udp sport dport csum1 csum0 body) ++ rest
    → parse_udp frame at (at + 40 + (8 + length body)) ≡ parsed h.src h.dst sport dport body
unfolding parse_udp be_value
parse_udp-udp frame at h sport dport csum1 csum0 body rest valid here =
    let user = udp sport dport csum1 csum0 body in
    let next = next_here frame at h 17 user rest valid here in
    let inside = body_here frame at h 17 user rest valid here in
    let src_port : u16_at (at + 40) frame ≡ sport = ap (u16_at 0) inside ∙ omega arith in
    let dst_port : u16_at (at + 40 + 2) frame ≡ dport =
      u16_at_offset frame (at + 40) inside 2 ∙ omega arith in
    let count : at + 40 + (8 + length body) - (at + 40 + 8) ≡ length body = omega arith in
    let content : slice (at + 40 + 8) (at + 40 + (8 + length body) - (at + 40 + 8)) frame ≡ body =
      ap (λ n. slice (at + 40 + 8) n frame) count
      ∙ slice_at frame (at + 40) inside 8 (length body)
      ∙ take-append_of_length (length body) body rest refl in
    let fits : ltb (at + 40 + (8 + length body)) (at + 40 + 8) ≡ false = ground arith in
    let src = src_here frame at h 17 user rest valid here in
    let dst = dst_here frame at h 17 user rest valid here in
    rw (next, fits) (same_fields src dst src_port dst_port content)
