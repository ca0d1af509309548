-- ===== src/Topo/Hosts.antt =====
-- srv6_mrc/topo.py: the inner addresses of hosts, and the host that one names.
use Prim.Native.String.{String}
use text.Mathlib.Text.{◌==◌ as str_eq}
use srv6_mrc_emulator.Common.{
  ℕ, ◌≤◌, ◌≡◌, ◌∙◌, ap, sym, inl, inr, Bool-cases, true, List, [], ◌∷◌, ◌++◌, none, some, ltb, leb,
  ltb→lt, if◌then◌else◌, arith, value_error, guard, >>=-eq-ok, ok,
}
use srv6_mrc_emulator.Topo.Defs.{Text}
use srv6_mrc_emulator.Topo.Text.{codes, hex_02}
use srv6_mrc_emulator.Topo.Ipv6.{ipv6_groups}
use srv6_mrc_emulator.Topo.Parsing.{Spells, Spells-hex_02, groups_of_four_one}
use srv6_mrc_emulator.Topo.Readback.{Spells-2001, Spells-db8, Spells-cccc, Spells-bbbb, Spells-two}
use srv6_mrc_emulator.Topo.Addresses.{
  Fabric, contains, inner_addr, green_anycast_addr, yellow_anycast_addr, host_id_from_inner_addr,
  host_of_groups, bind_groups, check_tenant, check_host,
}

-- The tenant's prefix that `inner_addr` prints: green's, or that of any other tenant.
inner_addr-ok :
    (f : Fabric) (tenant : String) (host_id : ℕ) (addr : Text)
    → inner_addr f tenant host_id ≡ ok addr
    → (ltb host_id f.num_leaves ≡ true)
      × ((if str_eq tenant "green"
            then codes "2001:db8:bbbb:" ++ hex_02 host_id ++ codes "::2"
            else codes "2001:db8:cccc:" ++ hex_02 host_id ++ codes "::2")
          ≡ addr)
unfolding inner_addr check_tenant check_host green_anycast_addr yellow_anycast_addr
inner_addr-ok f tenant host_id addr h =
    let (u, a, h1) = >>=-eq-ok (guard (contains tenant f.tenants) value_error) _ h in
    elim (Bool-cases (ltb host_id f.num_leaves)) [
      | inl fits ↦ (fits, ground (arith, h1, fits))
      | inr big ↦ ground (arith, h1, big)
    ]

groups_of_host_cccc :
    (host : Text) {h : ℕ}
    → Spells host h
    → ipv6_groups (codes "2001:db8:cccc:" ++ host ++ codes "::2")
      ≡ some (0x2001 ∷ 0xdb8 ∷ 0xcccc ∷ h ∷ 0 ∷ 0 ∷ 0 ∷ 2 ∷ [])
groups_of_host_cccc host sh = groups_of_four_one Spells-2001 Spells-db8 Spells-cccc sh Spells-two

groups_of_host_bbbb :
    (host : Text) {h : ℕ}
    → Spells host h
    → ipv6_groups (codes "2001:db8:bbbb:" ++ host ++ codes "::2")
      ≡ some (0x2001 ∷ 0xdb8 ∷ 0xbbbb ∷ h ∷ 0 ∷ 0 ∷ 0 ∷ 2 ∷ [])
groups_of_host_bbbb host sh = groups_of_four_one Spells-2001 Spells-db8 Spells-bbbb sh Spells-two

host_id_from_inner_addr-groups :
    {text addr : Text} {gs : List ℕ}
    → text ≡ addr
    → ipv6_groups text ≡ some gs
    → host_id_from_inner_addr addr ≡ host_of_groups gs
unfolding host_id_from_inner_addr
host_id_from_inner_addr-groups same h =
    ap (λ a. bind_groups (ipv6_groups a) host_of_groups) (sym same)
    ∙ ap (λ gs. bind_groups gs host_of_groups) h

-- The host that an inner address names, for a topology of at most 65536 leaves: the one that the address
-- was made for if its id is at most 15, and none otherwise; a tenant other than green is read as yellow.
pub host_id_from_inner_addr-inner_addr :
    (f : Fabric) (tenant : String) (host_id : ℕ) (addr : Text)
    → f.num_leaves ≤ 0x10000
    → inner_addr f tenant host_id ≡ ok addr
    → host_id_from_inner_addr addr ≡ (
        if leb host_id 15
        then some (if str_eq tenant "green" then "green" else "yellow", host_id)
        else none)
host_id_from_inner_addr-inner_addr f tenant host_id addr nl h =
    let (fits, text) = inner_addr-ok f tenant host_id addr h in
    let host = Spells-hex_02 host_id (omega (arith, ltb→lt host_id f.num_leaves fits, nl)) in
    elim (Bool-cases (str_eq tenant "green")) [
      | inl green ↦ rw green (
          host_id_from_inner_addr-groups (rw green at text)
            (groups_of_host_bbbb (hex_02 host_id) host))
      | inr other ↦ rw other (
          host_id_from_inner_addr-groups (rw other at text)
            (groups_of_host_cccc (hex_02 host_id) host))
    ]
