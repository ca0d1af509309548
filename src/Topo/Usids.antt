-- ===== src/Topo/Usids.antt =====
-- srv6_mrc/topo.py: the uSID lists that the outer destinations spell.
use Prim.Native.String.{String}
use text.Mathlib.Text.{◌==◌ as str_eq}
use srv6_mrc_emulator.Common.{
  ℕ, ◌+◌, ◌*◌, ◌<◌, ◌≡◌, ◌∙◌, ap, refl, sym, inl, inr, Bool-cases, Bool, true, false, List, [], ◌∷◌,
  ◌++◌, some, ltb, if◌then◌else◌, arith, value_error, guard, ok-injective, >>=-eq-ok, ok,
}
use mathlib.Core.Path.{subst}
use srv6_mrc_emulator.Topo.Defs.{Text}
use srv6_mrc_emulator.Topo.Text.{codes, hex, hex_value, digit_value}
use srv6_mrc_emulator.Topo.Ipv6.{ipv6_groups, parse_hextet}
use srv6_mrc_emulator.Topo.Parsing.{Spells, Spells-prefix, groups_of_five, groups_of_six}
use srv6_mrc_emulator.Topo.Readback.{spelled}
use srv6_mrc_emulator.Topo.Addresses.{
  Fabric, contains, SidMode, ua, un, usid_outer_dst, usid_head, yellow_tail, check_tenant,
  check_plane, check_spine, check_host,
}

Spells-fc00 : Spells (codes "fc00") 0xfc00
unfolding parse_hextet hex_value digit_value
Spells-fc00 = spelled (codes "fc00") 0xfc00 (omega arith) refl refl

Spells-d000 : Spells (codes "d000") 0xd000
unfolding parse_hextet hex_value digit_value
Spells-d000 = spelled (codes "d000") 0xd000 (omega arith) refl refl

Spells-d001 : Spells (codes "d001") 0xd001
unfolding parse_hextet hex_value digit_value
Spells-d001 = spelled (codes "d001") 0xd001 (omega arith) refl refl

Spells-e009 : Spells (codes "e009") 0xe009
unfolding parse_hextet hex_value digit_value
Spells-e009 = spelled (codes "e009") 0xe009 (omega arith) refl refl

Spells-000 : (n : ℕ) → n < 16 → Spells (codes "000" ++ hex n) n
unfolding hex_value digit_value
Spells-000 n h =
    let same : 0 * 16 + n ≡ n = omega arith in
    subst (Spells (codes "000" ++ hex n)) same
      (Spells-prefix (codes "000") 0 n (omega arith) (omega arith) refl refl h)

Spells-f00 : (n : ℕ) → n < 16 → Spells (codes "f00" ++ hex n) (0xf00 * 16 + n)
unfolding hex_value digit_value
Spells-f00 n h = Spells-prefix (codes "f00") 0xf00 n (omega arith) (omega arith) refl refl h

Spells-e00 : (n : ℕ) → n < 16 → Spells (codes "e00" ++ hex n) (0xe00 * 16 + n)
unfolding hex_value digit_value
Spells-e00 n h = Spells-prefix (codes "e00") 0xe00 n (omega arith) (omega arith) refl refl h

Spells-1 : (n : ℕ) → n < 16 → Spells (codes "1" ++ hex n) (1 * 16 + n)
unfolding hex_value digit_value
Spells-1 n h = Spells-prefix (codes "1") 1 n (omega arith) (omega arith) refl refl h

Spells-2 : (n : ℕ) → n < 16 → Spells (codes "2" ++ hex n) (2 * 16 + n)
unfolding hex_value digit_value
Spells-2 n h = Spells-prefix (codes "2") 2 n (omega arith) (omega arith) refl refl h

-- The function uSIDs that select the spine and the leaf: adjacency SIDs, or node SIDs.
abbrev pub spine_sid : SidMode → ℕ → ℕ
spine_sid ua spine = 0xf00 * 16 + spine
spine_sid un spine = 1 * 16 + spine

abbrev pub leaf_sid : SidMode → ℕ → ℕ
leaf_sid ua leaf = 0xe00 * 16 + leaf
leaf_sid un leaf = 2 * 16 + leaf

-- What is left for the destination host: its tenant's decapsulation, which for yellow comes after the leaf's
-- host port in a list of adjacency SIDs.
abbrev pub last_sids : SidMode → Bool → List ℕ
last_sids mode true = 0xd000 ∷ 0 ∷ 0 ∷ 0 ∷ []
last_sids ua false = 0xe009 ∷ 0xd001 ∷ 0 ∷ 0 ∷ []
last_sids un false = 0xd001 ∷ 0 ∷ 0 ∷ 0 ∷ []

usid_text :
    (mode : SidMode) (plane spine leaf : ℕ) (green : Bool)
    → plane < 16
    → spine < 16
    → leaf < 16
    → ipv6_groups
        (usid_head mode plane spine leaf (if green then codes ":d000::" else yellow_tail mode))
      ≡ some (0xfc00 ∷ plane ∷ spine_sid mode spine ∷ leaf_sid mode leaf ∷ last_sids mode green)
usid_text ua plane spine leaf true p s l =
    groups_of_five Spells-fc00 (Spells-000 plane p) (Spells-f00 spine s) (Spells-e00 leaf l)
      Spells-d000
usid_text un plane spine leaf true p s l =
    groups_of_five Spells-fc00 (Spells-000 plane p) (Spells-1 spine s) (Spells-2 leaf l) Spells-d000
usid_text ua plane spine leaf false p s l =
    groups_of_six Spells-fc00 (Spells-000 plane p) (Spells-f00 spine s) (Spells-e00 leaf l)
      Spells-e009 Spells-d001
usid_text un plane spine leaf false p s l =
    groups_of_five Spells-fc00 (Spells-000 plane p) (Spells-1 spine s) (Spells-2 leaf l) Spells-d001

usid_of_branch :
    (tenant : String) (plane spine dst_leaf : ℕ) (mode : SidMode) (outer : Text)
    → plane < 16
    → spine < 16
    → dst_leaf < 16
    → (if str_eq tenant "green"
        then ok (usid_head mode plane spine dst_leaf (codes ":d000::"))
        else ok (usid_head mode plane spine dst_leaf (yellow_tail mode)))
      ≡ ok outer
    → ipv6_groups outer
      ≡ some (
          0xfc00
          ∷ plane
          ∷ spine_sid mode spine
          ∷ leaf_sid mode dst_leaf
          ∷ last_sids mode (str_eq tenant "green"))
usid_of_branch tenant plane spine dst_leaf mode outer p s l h =
    elim (Bool-cases (str_eq tenant "green")) [
      | inl green ↦ rw green (
          ap ipv6_groups (sym (ok-injective _ outer (rw green at h)))
          ∙ usid_text mode plane spine dst_leaf true p s l)
      | inr other ↦ rw other (
          ap ipv6_groups (sym (ok-injective _ outer (rw other at h)))
          ∙ usid_text mode plane spine dst_leaf false p s l)
    ]

-- The outer destination that `usid_outer_dst` prints is an address, and its eight groups are the uSIDs of the
-- plane, the spine, the leaf and the tenant, in that order, for a plane, a spine and a leaf below 16.
pub usid_outer_dst-groups :
    (f : Fabric) (tenant : String) (plane spine dst_leaf : ℕ) (mode : SidMode) (outer : Text)
    → plane < 16
    → spine < 16
    → dst_leaf < 16
    → usid_outer_dst f tenant plane spine dst_leaf mode ≡ ok outer
    → ipv6_groups outer
      ≡ some (
          0xfc00
          ∷ plane
          ∷ spine_sid mode spine
          ∷ leaf_sid mode dst_leaf
          ∷ last_sids mode (str_eq tenant "green"))
unfolding usid_outer_dst check_tenant check_plane check_spine check_host
usid_outer_dst-groups f tenant plane spine dst_leaf mode outer p s l h =
    let (u1, a, h1) = >>=-eq-ok (guard (contains tenant f.tenants) value_error) _ h in
    let (u2, b, h2) = >>=-eq-ok (guard (ltb plane f.shape.num_planes) value_error) _ h1 in
    let (u3, c, h3) = >>=-eq-ok (guard (ltb spine f.shape.num_spines) value_error) _ h2 in
    let (u4, d, h4) = >>=-eq-ok (guard (ltb dst_leaf f.num_leaves) value_error) _ h3 in
    usid_of_branch tenant plane spine dst_leaf mode outer p s l h4
