-- ===== src/Examples/Topo.antt =====
-- srv6_mrc/topo.py on a fabric of four planes, eight spines and sixteen leaves.
use text.Mathlib.Text.{◌==◌ as str_eq}
use srv6_mrc_emulator.Common.{◌≡◌, refl, arith, [], ◌∷◌, ◌*◌, ◌+◌, some, ok, if◌then◌else◌}
use srv6_mrc_emulator.Topo.Text.{codes, hex, hex_from, hex_02}
use srv6_mrc_emulator.Topo.Ipv6.{ipv6_groups}
use srv6_mrc_emulator.Topo.Addresses.{
  Fabric, check_tenant, check_plane, check_spine, check_host, low_byte, probe_ev_addr,
  probe_ev_from_inner_dst, inner_addr, green_anycast_addr, yellow_anycast_addr,
  host_id_from_inner_addr, usid_outer_dst, ua, dqpn_for_ev, tenant_id, tenant_id_from,
}
use srv6_mrc_emulator.Topo.Readback.{probe_ev_from_inner_dst-probe_ev_addr}
use srv6_mrc_emulator.Topo.Hosts.{host_id_from_inner_addr-inner_addr}
use srv6_mrc_emulator.Topo.Usids.{usid_outer_dst-groups}

abbrev pub reference : Fabric
reference = record {
  shape = record { num_planes = 4; num_spines = 8 };
  num_leaves = 16;
  tenants = "green" ∷ "yellow" ∷ [];
}

probe_addr : probe_ev_addr reference "yellow" 15 3 3 ≡ ok (codes "2001:db8:cccc:f::43")
unfolding probe_ev_addr check_tenant check_host check_plane check_spine hex hex_from low_byte
probe_addr = refl

probe_ev_from_inner_dst-probe_ev_addr_example :
    probe_ev_from_inner_dst reference (codes "2001:db8:cccc:f::43") ≡ some ("yellow", (15, (3, 3)))
probe_ev_from_inner_dst-probe_ev_addr_example =
    probe_ev_from_inner_dst-probe_ev_addr reference "yellow" 15 3 3 (codes "2001:db8:cccc:f::43")
      (omega arith) (omega arith) (omega arith) probe_addr

green_addr : inner_addr reference "green" 10 ≡ ok (codes "2001:db8:bbbb:0a::2")
unfolding inner_addr check_tenant check_host green_anycast_addr yellow_anycast_addr hex_02 hex
    hex_from
green_addr = refl

host_id_from_inner_addr-inner_addr_example :
    host_id_from_inner_addr (codes "2001:db8:bbbb:0a::2")
    ≡ some (if str_eq "green" "green" then "green" else "yellow", 10)
host_id_from_inner_addr-inner_addr_example =
    host_id_from_inner_addr-inner_addr reference "green" 10 (codes "2001:db8:bbbb:0a::2")
      (omega arith) green_addr

outer_dst :
    usid_outer_dst reference "yellow" 1 7 15 ua ≡ ok (codes "fc00:0001:f007:e00f:e009:d001::")
unfolding usid_outer_dst check_tenant check_plane check_spine check_host hex hex_from
outer_dst = refl

usid_outer_dst-groups_example :
    ipv6_groups (codes "fc00:0001:f007:e00f:e009:d001::")
    ≡ some (0xfc00 ∷ 1 ∷ (0xf00 * 16 + 7) ∷ (0xe00 * 16 + 15) ∷ 0xe009 ∷ 0xd001 ∷ 0 ∷ 0 ∷ [])
usid_outer_dst-groups_example =
    usid_outer_dst-groups reference "yellow" 1 7 15 ua (codes "fc00:0001:f007:e00f:e009:d001::")
      (omega arith) (omega arith) (omega arith) outer_dst

queue : dqpn_for_ev reference 2 5 ≡ ok 0x010205
unfolding dqpn_for_ev check_plane check_spine
queue = refl

yellow_id : tenant_id reference "yellow" ≡ ok 2
unfolding tenant_id tenant_id_from
yellow_id = refl
