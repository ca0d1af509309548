-- ===== src/Topo/Queues.antt =====
-- srv6_mrc/topo.py: the queue number of an EV, and the EV that a queue number names.
use Prim.Native.Nat.{bit_or}
use srv6_mrc_emulator.Common.{
  ℕ, ◌+◌, ◌/◌, ◌%◌, ◌*◌, ◌≤◌, ◌<◌, ◌≡◌, Bool, true, ltb, ltb→lt, all_below, all_below-entry, ◌==◌,
  arith, ap, ◌∙◌, refl, guard, guard-ok, value_error, >>=-eq-ok, ok,
}
use srv6_mrc_emulator.Topo.Addresses.{
  Fabric, check_plane, check_spine, dqpn_for_ev, dqpn_base, ev_from_dqpn,
}

-- One row of 256 paths for each of 256 planes.
abbrev agrees : ℕ → ℕ → Bool
agrees plane path = bit_or (bit_or dqpn_base (plane * 256)) path == dqpn_base + plane * 256 + path

table : all_below (λ plane. all_below (agrees plane) 256) 256 ≡ true
unfolding all_below
table = refl

dqpn_bits :
    (plane path : ℕ)
    → plane < 256
    → path < 256
    → bit_or (bit_or dqpn_base (plane * 256)) path ≡ dqpn_base + plane * 256 + path
dqpn_bits plane path p s =
    let row = all_below-entry (λ plane. all_below (agrees plane) 256) 256 plane table p in
    ground (arith, all_below-entry (agrees plane) 256 path row s)

-- The queue number of an EV names that EV, and lies between 2 and 2^24 as the RoCE header wants it, for a
-- topology of at most 256 planes of 256 spines.
pub ev_from_dqpn-dqpn_for_ev :
    (f : Fabric) (plane path dqpn : ℕ)
    → f.shape.num_planes ≤ 256
    → f.shape.num_spines ≤ 256
    → dqpn_for_ev f plane path ≡ ok dqpn
    → (ev_from_dqpn dqpn ≡ (plane, path)) × ((2 ≤ dqpn) × (dqpn < 0x1000000))
unfolding dqpn_for_ev ev_from_dqpn check_plane check_spine
ev_from_dqpn-dqpn_for_ev f plane path dqpn np ns h =
    let (u, a, h1) = >>=-eq-ok (guard (ltb plane f.shape.num_planes) value_error) _ h in
    let (v, b, h2) = >>=-eq-ok (guard (ltb path f.shape.num_spines) value_error) _ h1 in
    let p = ltb→lt plane f.shape.num_planes (guard-ok _ value_error a) in
    let s = ltb→lt path f.shape.num_spines (guard-ok _ value_error b) in
    let bits = dqpn_bits plane path (omega (arith, p, np)) (omega (arith, s, ns)) in
    let value : dqpn ≡ dqpn_base + plane * 256 + path = ground (arith, h2, bits) in
    let first : dqpn / 256 % 256 ≡ plane = omega (arith, value, p, np, s, ns) in
    let second : dqpn % 256 ≡ path = omega (arith, value, p, np, s, ns) in
    (
      ap (λ q. (q, dqpn % 256)) first ∙ ap (λ r. (plane, r)) second,
      (omega (arith, value), omega (arith, value, p, np, s, ns)),
    )
