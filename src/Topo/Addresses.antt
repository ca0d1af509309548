-- ===== src/Topo/Addresses.antt =====
-- srv6_mrc/topo.py: tenants, host and probe addresses, queue numbers and uSID lists.
use Prim.Native.Nat.{bit_or}
use Prim.Native.String.{String}
use text.Mathlib.Text.{◌==◌ as str_eq}
use srv6_mrc_emulator.Common.{
  ℕ, ◌+◌, ◌-◌, ◌*◌, ◌/◌, ◌%◌, Bool, false, ◌&&◌, ◌||◌, List, [], ◌∷◌, ◌++◌, Option, none, some, ltb,
  leb, ◌==◌, if◌then◌else◌, Result, ok, raise, guard, ◌>>◌, value_error, not_implemented_error,
}
use srv6_mrc_emulator.Topo.Defs.{Shape, Text}
use srv6_mrc_emulator.Topo.Text.{codes, hex, hex_02}
use srv6_mrc_emulator.Topo.Ipv6.{ipv6_groups}

-- The topology: `NUM_PLANES` and `NUM_SPINES`, `NUM_LEAVES`, `TENANTS`.
pub record Fabric : Type 0 where
  pub shape : Shape
  pub num_leaves : ℕ
  pub tenants : List String

abbrev pub contains : String → List String → Bool
contains k [] = false
contains k (t ∷ ts) = str_eq t k || contains k ts

unfoldable pub check_tenant : Fabric → String → Result (Unit {0})
check_tenant f v = guard (contains v f.tenants) value_error

unfoldable pub check_plane : Fabric → ℕ → Result (Unit {0})
check_plane f v = guard (ltb v f.shape.num_planes) value_error

unfoldable pub check_spine : Fabric → ℕ → Result (Unit {0})
check_spine f v = guard (ltb v f.shape.num_spines) value_error

unfoldable pub check_host : Fabric → ℕ → Result (Unit {0})
check_host f v = guard (ltb v f.num_leaves) value_error

-- `TENANT_ID`, built by enumeration from `i` on: a name's last place counts.
unfoldable pub tenant_id_from : ℕ → List String → String → Option ℕ
tenant_id_from i [] tenant = none
tenant_id_from i (t ∷ ts) tenant = elim (tenant_id_from (i + 1) ts tenant) [
  | some id ↦ some id
  | none ↦ if str_eq t tenant then some (i + 1) else none
]

abbrev pub or_value_error {ℓ} : {A : Type ℓ} → Option A → Result A
or_value_error none = raise value_error
or_value_error (some x) = ok x

unfoldable pub tenant_id : Fabric → String → Result ℕ
tenant_id f tenant = or_value_error (tenant_id_from 0 f.tenants tenant)

-- `TENANT_BY_ID`: a place that counts for its name, searched from place `i` on.
unfoldable pub tenant_by_id_from : ℕ → List String → ℕ → Option String
tenant_by_id_from i [] tid = none
tenant_by_id_from i (t ∷ ts) tid = elim (tenant_id_from (i + 1) ts t) [
  | some later ↦ tenant_by_id_from (i + 1) ts tid
  | none ↦ if (i + 1) == tid then some t else tenant_by_id_from (i + 1) ts tid
]

unfoldable pub tenant_name : Fabric → ℕ → Result String
tenant_name f tid = or_value_error (tenant_by_id_from 0 f.tenants tid)

abbrev pub dqpn_base : ℕ
dqpn_base = 0x010000

-- DQPN_BASE | (plane << 8) | path
unfoldable pub dqpn_for_ev : Fabric → ℕ → ℕ → Result ℕ
unfolding check_plane check_spine
dqpn_for_ev f plane path = do
  check_plane f plane
  check_spine f path
  ok (bit_or (bit_or dqpn_base (plane * 256)) path)

unfoldable pub ev_from_dqpn : ℕ → ℕ × ℕ
ev_from_dqpn dqpn = (dqpn / 256 % 256, dqpn % 256)

unfoldable pub green_anycast_addr : Fabric → ℕ → Result Text
unfolding check_host
green_anycast_addr f host_id = do
  check_host f host_id
  ok (codes "2001:db8:bbbb:" ++ hex_02 host_id ++ codes "::2")

unfoldable pub yellow_anycast_addr : Fabric → ℕ → Result Text
unfolding check_host
yellow_anycast_addr f host_id = do
  check_host f host_id
  ok (codes "2001:db8:cccc:" ++ hex_02 host_id ++ codes "::2")

unfoldable pub inner_addr : Fabric → String → ℕ → Result Text
unfolding check_tenant green_anycast_addr yellow_anycast_addr
inner_addr f tenant host_id = do
  check_tenant f tenant
  if str_eq tenant "green" then green_anycast_addr f host_id else yellow_anycast_addr f host_id

-- The two deprecated functions that check the plane and ignore it.
unfoldable pub host_underlay_addr : Fabric → String → ℕ → ℕ → Result Text
unfolding check_tenant check_plane check_host inner_addr
host_underlay_addr f tenant plane host_id = do
  check_tenant f tenant
  check_plane f plane
  check_host f host_id
  inner_addr f tenant host_id

-- `parts[2] == "bbbb" and parts[7] == "0002"`, and so on: the exploded form spells a group in four
-- digits, so that comparing texts is comparing numbers.
abbrev pub host_of_groups : List ℕ → Option (String × ℕ)
host_of_groups (g0 ∷ g1 ∷ g2 ∷ g3 ∷ g4 ∷ g5 ∷ g6 ∷ g7 ∷ []) =
    if g0 == 0x2001 && g1 == 0xdb8
    then (if g2 == 0xbbbb && g7 == 2
        then (if leb g3 15 then some ("green", g3) else none)
        else if g2 == 0xcccc && g7 == 2
        then (if leb g3 15 then some ("yellow", g3) else none)
        else none)
    else none
host_of_groups _ = none

abbrev pub bind_groups {ℓ} : {A : Type ℓ} → Option (List ℕ) → (List ℕ → Option A) → Option A
bind_groups none read = none
bind_groups (some gs) read = read gs

unfoldable pub host_id_from_inner_addr : Text → Option (String × ℕ)
host_id_from_inner_addr addr = bind_groups (ipv6_groups addr) host_of_groups

-- What depends on the tenant, of which there are two that the scheme knows.
abbrev pub for_tenant : String → Text → Text → Result Text
for_tenant tenant yellow green =
    if str_eq tenant "yellow"
    then ok yellow
    else if str_eq tenant "green"
    then ok green
    else raise not_implemented_error

-- (nic << 4) | path
unfoldable pub low_byte : ℕ → ℕ → ℕ
low_byte plane path = bit_or ((plane + 1) * 16) path

unfoldable pub probe_ev_addr : Fabric → String → ℕ → ℕ → ℕ → Result Text
unfolding check_tenant check_host check_plane check_spine
probe_ev_addr f tenant host_id plane path = do
  check_tenant f tenant
  check_host f host_id
  check_plane f plane
  check_spine f path
  let rest = hex host_id ++ (codes "::" ++ hex (low_byte plane path))
  for_tenant tenant (codes "2001:db8:cccc:" ++ rest) (codes "2001:db8:bbbb:" ++ rest)

abbrev pub probe_tenant : ℕ → Option String
probe_tenant g = if g == 0xcccc then some "yellow" else if g == 0xbbbb then some "green" else none

-- The checks on the host and on the low byte.
abbrev pub probe_ev_of : Fabric → ℕ → ℕ → Option String → Option (String × (ℕ × (ℕ × ℕ)))
probe_ev_of f host_id low none = none
probe_ev_of f host_id low (some tenant) =
    let nic = low / 16 % 16 in
    let path = low % 16 in
    if ltb host_id f.num_leaves
      && (leb 0x10 low && leb low 0xff)
      && (leb 1 nic && leb nic f.shape.num_planes)
      && ltb path f.shape.num_spines
    then some (tenant, (host_id, (nic - 1, path)))
    else none

abbrev pub probe_ev_of_groups : Fabric → List ℕ → Option (String × (ℕ × (ℕ × ℕ)))
probe_ev_of_groups f (g0 ∷ g1 ∷ g2 ∷ g3 ∷ g4 ∷ g5 ∷ g6 ∷ g7 ∷ []) =
    if g0 == 0x2001 && g1 == 0xdb8 && (g4 == 0 && (g5 == 0 && g6 == 0))
    then probe_ev_of f g3 g7 (probe_tenant g2)
    else none
probe_ev_of_groups f _ = none

unfoldable pub probe_ev_from_inner_dst : Fabric → Text → Option (String × (ℕ × (ℕ × ℕ)))
probe_ev_from_inner_dst f addr = bind_groups (ipv6_groups addr) (probe_ev_of_groups f)

-- The uSIDs of the stateless probe's round trip.
unfoldable pub probe_outer_dst : Fabric → String → ℕ → ℕ → ℕ → ℕ → Result Text
unfolding check_tenant check_host check_plane check_spine
probe_outer_dst f tenant plane src_leaf dst_leaf path = do
  check_tenant f tenant
  check_plane f plane
  check_host f src_leaf
  check_host f dst_leaf
  check_spine f path
  let there = λ (rest : Text).
      codes "fc00:000"
      ++ (hex plane ++ (codes ":f00" ++ (hex path ++ (codes ":e00" ++ (hex dst_leaf ++ rest)))))
  let back = λ (rest : Text). codes ":f00" ++ (hex path ++ (codes ":e00" ++ (hex src_leaf ++ rest)))
  for_tenant tenant (there (codes ":e009" ++ back (codes ":dfff"))) (there (back (codes ":d000::")))

pub data SidMode : Type 0 where
  ua un : SidMode

abbrev pub usid_head : SidMode → ℕ → ℕ → ℕ → Text → Text
usid_head ua plane spine dst_leaf rest =
    codes "fc00:000"
    ++ (hex plane ++ (codes ":f00" ++ (hex spine ++ (codes ":e00" ++ (hex dst_leaf ++ rest)))))
usid_head un plane spine dst_leaf rest =
    codes "fc00:000"
    ++ (hex plane ++ (codes ":1" ++ (hex spine ++ (codes ":2" ++ (hex dst_leaf ++ rest)))))

abbrev pub yellow_tail : SidMode → Text
yellow_tail ua = codes ":e009:d001::"
yellow_tail un = codes ":d001::"

unfoldable pub usid_outer_dst : Fabric → String → ℕ → ℕ → ℕ → SidMode → Result Text
unfolding check_tenant check_plane check_spine check_host
usid_outer_dst f tenant plane spine dst_leaf sid_mode = do
  check_tenant f tenant
  check_plane f plane
  check_spine f spine
  check_host f dst_leaf
  let head = usid_head sid_mode plane spine dst_leaf
  if str_eq tenant "green" then ok (head (codes ":d000::")) else ok (head (yellow_tail sid_mode))
