-- ===== src/Topo/Readback.antt =====
-- srv6_mrc/topo.py: the addresses that one process prints and another one reads.
use Prim.Native.Nat.{bit_or}
use Prim.Native.String.{String}
use text.Mathlib.Text.{◌==◌ as str_eq}
use text.Mathlib.TextEquality.{eq_iff}
use srv6_mrc_emulator.Common.{
  ℕ, ◌+◌, ◌/◌, ◌%◌, ◌*◌, ◌≤◌, ◌<◌, ◌≡◌, ◌≢◌, ◌⊎◌, ◌∙◌, ap, refl, sym, inl, inr, Bool-cases, Bool,
  true, false, List, [], ◌∷◌, ◌++◌, some, ltb, ltb→lt, all_below, all_below-entry, ◌==◌, arith, All,
  value_error, guard, guard-ok, >>=-eq-ok, ok,
}
use srv6_mrc_emulator.Topo.Defs.{Text}
use srv6_mrc_emulator.Topo.Text.{codes, hex, hex_value, digit_value}
use srv6_mrc_emulator.Topo.Ipv6.{ipv6_groups, parse_hextet}
use srv6_mrc_emulator.Topo.Parsing.{Spells, Spells-hex, groups_of_four_one}
use srv6_mrc_emulator.Topo.Addresses.{
  Fabric, contains, low_byte, probe_ev_addr, probe_ev_from_inner_dst, probe_ev_of_groups,
  probe_tenant, check_tenant, check_host, check_plane, check_spine, bind_groups, for_tenant,
}

pub spelled :
    (s : Text) (v : ℕ)
    → All (λ c. c ≢ 58) s
    → parse_hextet s ≡ some v
    → srv6_mrc_emulator.Topo.Ipv6.is_empty s ≡ false
    → Spells s v
spelled s v a b c = record { no_colon = a; filled = c; parses = b }

pub Spells-2001 : Spells (codes "2001") 0x2001
unfolding parse_hextet hex_value digit_value
Spells-2001 = spelled (codes "2001") 0x2001 (omega arith) refl refl

pub Spells-db8 : Spells (codes "db8") 0xdb8
unfolding parse_hextet hex_value digit_value
Spells-db8 = spelled (codes "db8") 0xdb8 (omega arith) refl refl

pub Spells-bbbb : Spells (codes "bbbb") 0xbbbb
unfolding parse_hextet hex_value digit_value
Spells-bbbb = spelled (codes "bbbb") 0xbbbb (omega arith) refl refl

pub Spells-cccc : Spells (codes "cccc") 0xcccc
unfolding parse_hextet hex_value digit_value
Spells-cccc = spelled (codes "cccc") 0xcccc (omega arith) refl refl

pub Spells-two : Spells (codes "2") 2
unfolding parse_hextet hex_value digit_value
Spells-two = spelled (codes "2") 2 (omega arith) refl refl

-- Sixteen paths for each of fifteen NICs, in one byte.
abbrev joins : ℕ → Bool
joins n = bit_or ((n / 16) * 16) (n % 16) == n

low_bytes : all_below joins 256 ≡ true
unfolding all_below
low_bytes = refl

low_byte_entry : (n : ℕ) → n < 256 → bit_or ((n / 16) * 16) (n % 16) ≡ n
low_byte_entry n h = ground (arith, all_below-entry joins 256 n low_bytes h)

low_byte_lem :
    (plane path : ℕ) → plane < 15 → path < 16 → low_byte plane path ≡ (plane + 1) * 16 + path
unfolding low_byte
low_byte_lem plane path h k =
    let n = (plane + 1) * 16 + path in
    let high : n / 16 ≡ plane + 1 = omega (arith, k) in
    let low : n % 16 ≡ path = omega (arith, k) in
    let e = low_byte_entry n (omega (arith, h, k)) in
    ap (λ q. bit_or (q * 16) path) (sym high) ∙ ap (bit_or ((n / 16) * 16)) (sym low) ∙ e

for_tenant-ok :
    (tenant : String) (yellow green addr : Text)
    → for_tenant tenant yellow green ≡ ok addr
    → (tenant ≡ "yellow") × (yellow ≡ addr) ⊎ (tenant ≡ "green") × (green ≡ addr)
for_tenant-ok tenant yellow green addr h = elim (Bool-cases (str_eq tenant "yellow")) [
  | inl y ↦ inl ((eq_iff tenant "yellow").0 y, cc)
  | inr not_yellow ↦ elim (Bool-cases (str_eq tenant "green")) [
    | inl g ↦ inr ((eq_iff tenant "green").0 g, cc)
    | inr other ↦ cc
  ]
]

-- The checks of `probe_ev_addr`, and the text that it returns.
probe_ev_addr-ok :
    (f : Fabric) (tenant : String) (host_id plane path : ℕ) (addr : Text)
    → probe_ev_addr f tenant host_id plane path ≡ ok addr
    → (ltb host_id f.num_leaves ≡ true)
      × ((ltb plane f.shape.num_planes ≡ true)
          × ((ltb path f.shape.num_spines ≡ true)
              × (for_tenant tenant
                    (codes "2001:db8:cccc:"
                      ++ (hex host_id ++ (codes "::" ++ hex (low_byte plane path))))
                    (codes "2001:db8:bbbb:"
                      ++ (hex host_id ++ (codes "::" ++ hex (low_byte plane path))))
                  ≡ ok addr)))
unfolding probe_ev_addr check_tenant check_host check_plane check_spine
probe_ev_addr-ok f tenant host_id plane path addr h =
    let (u, a, h1) = >>=-eq-ok (guard (contains tenant f.tenants) value_error) _ h in
    let (u2, b, h2) = >>=-eq-ok (guard (ltb host_id f.num_leaves) value_error) _ h1 in
    let (u3, c, h3) = >>=-eq-ok (guard (ltb plane f.shape.num_planes) value_error) _ h2 in
    let (u4, d, h4) = >>=-eq-ok (guard (ltb path f.shape.num_spines) value_error) _ h3 in
    (
      guard-ok (ltb host_id f.num_leaves) value_error b,
      (guard-ok _ value_error c, (guard-ok _ value_error d, h4)),
    )

probe_ev_of_groups-encoded :
    (f : Fabric) (tenant : String) (g2 host_id plane path : ℕ)
    → probe_tenant g2 ≡ some tenant
    → ltb host_id f.num_leaves ≡ true
    → plane < f.shape.num_planes
    → path < f.shape.num_spines
    → f.shape.num_planes ≤ 15
    → f.shape.num_spines ≤ 16
    → probe_ev_of_groups f
        (0x2001 ∷ 0xdb8 ∷ g2 ∷ host_id ∷ 0 ∷ 0 ∷ 0 ∷ ((plane + 1) * 16 + path) ∷ [])
      ≡ some (tenant, (host_id, (plane, path)))
probe_ev_of_groups-encoded f tenant g2 host_id plane path t h p s np ns =
    let low = (plane + 1) * 16 + path in
    let small : path < 16 = omega (arith, s, ns) in
    let nic : low / 16 % 16 ≡ plane + 1 = omega (arith, p, np, small) in
    let rest : low % 16 ≡ path = omega (arith, small) in
    rw (t, nic, rest, h) (ground (arith, p, s, np, ns))

-- The two texts that `probe_ev_addr` prints.
groups_of_cccc :
    (host low : Text) {h l : ℕ}
    → Spells host h
    → Spells low l
    → ipv6_groups (codes "2001:db8:cccc:" ++ (host ++ (codes "::" ++ low)))
      ≡ some (0x2001 ∷ 0xdb8 ∷ 0xcccc ∷ h ∷ 0 ∷ 0 ∷ 0 ∷ l ∷ [])
groups_of_cccc host low sh sl = groups_of_four_one Spells-2001 Spells-db8 Spells-cccc sh sl

groups_of_bbbb :
    (host low : Text) {h l : ℕ}
    → Spells host h
    → Spells low l
    → ipv6_groups (codes "2001:db8:bbbb:" ++ (host ++ (codes "::" ++ low)))
      ≡ some (0x2001 ∷ 0xdb8 ∷ 0xbbbb ∷ h ∷ 0 ∷ 0 ∷ 0 ∷ l ∷ [])
groups_of_bbbb host low sh sl = groups_of_four_one Spells-2001 Spells-db8 Spells-bbbb sh sl

probe_ev_from_inner_dst-groups :
    (f : Fabric) {text addr : Text} {gs : List ℕ}
    → text ≡ addr
    → ipv6_groups text ≡ some gs
    → probe_ev_from_inner_dst f addr ≡ probe_ev_of_groups f gs
unfolding probe_ev_from_inner_dst
probe_ev_from_inner_dst-groups f same h =
    ap (λ a. bind_groups (ipv6_groups a) (probe_ev_of_groups f)) (sym same)
    ∙ ap (λ gs. bind_groups gs (probe_ev_of_groups f)) h

-- The probe address of an EV, read back by the agent that receives the packet, names that EV, for a
-- topology within the scheme's bounds: 15 planes, 16 spines and 65536 leaves.
pub probe_ev_from_inner_dst-probe_ev_addr :
    (f : Fabric) (tenant : String) (host_id plane path : ℕ) (addr : Text)
    → f.shape.num_planes ≤ 15
    → f.shape.num_spines ≤ 16
    → f.num_leaves ≤ 0x10000
    → probe_ev_addr f tenant host_id plane path ≡ ok addr
    → probe_ev_from_inner_dst f addr ≡ some (tenant, (host_id, (plane, path)))
probe_ev_from_inner_dst-probe_ev_addr f tenant host_id plane path addr np ns nl h =
    let (a, (b, (c, d))) = probe_ev_addr-ok f tenant host_id plane path addr h in
    let p = ltb→lt plane f.shape.num_planes b in
    let s = ltb→lt path f.shape.num_spines c in
    let host = Spells-hex host_id (omega (arith, ltb→lt host_id f.num_leaves a, nl)) in
    let low = low_byte_lem plane path (omega (arith, p, np)) (omega (arith, s, ns)) in
    let last = Spells-hex (low_byte plane path) (omega (arith, low, p, np, s, ns)) in
    elim (for_tenant-ok tenant _ _ addr d) [
      | inl (name, text) ↦
          probe_ev_from_inner_dst-groups f text (groups_of_cccc _ _ host last)
          ∙ rw low (
              probe_ev_of_groups-encoded f tenant 0xcccc host_id plane path (ap some (sym name)) a p
                s np ns)
      | inr (name, text) ↦
          probe_ev_from_inner_dst-groups f text (groups_of_bbbb _ _ host last)
          ∙ rw low (
              probe_ev_of_groups-encoded f tenant 0xbbbb host_id plane path (ap some (sym name)) a p
                s np ns)
    ]
