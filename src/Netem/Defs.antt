-- ===== src/Netem/Defs.antt =====
-- srv6_mrc/netem.py: `parse_target` and `normalize_spec`, over lists of ASCII codes.
use srv6_mrc_emulator.Common.{
  ℕ, ◌+◌, Bool, false, not, ◌&&◌, ◌||◌, List, [], ◌∷◌, ◌++◌, map, range, ltb, ◌==◌, if◌then◌else◌,
  same_list, value_error, Result, ok, raise, guard, ◌>>◌,
}
use srv6_mrc_emulator.Common.Texts.{is_digit, is_letter, is_nil, all_of, number, words}
use srv6_mrc_emulator.Topo.Defs.{Text, decimal}
use srv6_mrc_emulator.Topo.Text.{codes, decimal_02}
use srv6_mrc_emulator.Topo.Addresses.{Fabric}
use Prim.Native.String.{String}

pub record NicTarget : Type 0 where
  pub container : Text
  pub ifname : Text

-- PLANE_NIC
abbrev pub plane_nic : ℕ → Text
plane_nic p = codes "eth" ++ decimal (p + 1)

unfoldable pub host_name : Text → ℕ → Text
host_name tenant host_id = tenant ++ (codes "-host" ++ decimal_02 host_id)

abbrev pub tenant_hosts : Text → List ℕ → List Text
tenant_hosts tenant ids = map (host_name tenant) ids

unfoldable pub all_hosts : Fabric → List String → List Text
all_hosts f [] = []
all_hosts f (t ∷ ts) = tenant_hosts (codes t) (range f.num_leaves) ++ all_hosts f ts

-- (\d{2}) after the tenant and "-host", within the range.
abbrev pub is_two_digits : ℕ → Text → Bool
is_two_digits num_leaves (a ∷ (b ∷ [])) =
    is_digit a && (is_digit b && ltb (number 0 (a ∷ b ∷ [])) num_leaves)
is_two_digits num_leaves _ = false

-- What follows a start of the text; a text that does not start so gives a text that no host has.
unfoldable pub after : Text → Text → Text
after [] s = s
after (c ∷ start) [] = []
after (c ∷ start) (d ∷ s) = let rest = after start s in if c == d then rest else []

-- _validate_host
unfoldable pub validate_host : Fabric → Text → Result (Unit {0})
validate_host f host =
    guard
      (is_two_digits f.num_leaves (after (codes "green-host") host)
        || is_two_digits f.num_leaves (after (codes "yellow-host") host))
      value_error

-- (\d+), within the planes.
abbrev pub is_plane : Fabric → Text → Bool
is_plane f n = not (is_nil n) && (all_of is_digit n && ltb (number 0 n) f.shape.num_planes)

unfoldable pub nics_of : Text → List ℕ → List NicTarget
nics_of host ps = map (λ p. record { container = host; ifname = plane_nic p }) ps

unfoldable pub target_of : Fabric → List Text → Result (List NicTarget)
target_of f (a ∷ (b ∷ [])) =
    if same_list a (codes "plane")
    then (do
      guard (is_plane f b) value_error
      ok (
          map (λ host. record { container = host; ifname = plane_nic (number 0 b) })
            (all_hosts f f.tenants)))
    else if same_list a (codes "host")
    then (do validate_host f b; ok (nics_of b (range f.shape.num_planes)))
    else raise value_error
target_of f (a ∷ (b ∷ (c ∷ (d ∷ [])))) =
    if same_list a (codes "host") && same_list c (codes "plane")
    then (do validate_host f b; guard (is_plane f d) value_error; ok (nics_of b (number 0 d ∷ [])))
    else raise value_error
target_of f _ = raise value_error

-- The patterns are words between spaces.
unfoldable pub parse_target : Fabric → Text → Result (List NicTarget)
parse_target f target = target_of f (words target)

-- [A-Za-z0-9.%]
abbrev pub is_token_char : ℕ → Bool
is_token_char c = is_letter c || (is_digit c || (c == 46 || c == 37))

abbrev pub allowed_keywords : List String
allowed_keywords =
    "loss" ∷ "delay" ∷ "duplicate" ∷ "corrupt" ∷ "reorder" ∷ "rate" ∷ "gap" ∷ "limit"
    ∷ "distribution" ∷ "normal" ∷ "pareto" ∷ "paretonormal" ∷ "blackhole" ∷ []

unfoldable pub is_keyword : Text → List String → Bool
is_keyword t [] = false
is_keyword t (k ∷ ks) = same_list (codes k) t || is_keyword t ks

unfoldable pub spec_of : List Text → Result (List Text)
spec_of [] = raise value_error
spec_of (first ∷ rest) = do
  guard (all_of (all_of is_token_char) (first ∷ rest)) value_error
  guard (is_keyword first allowed_keywords) value_error
  ok (first ∷ rest)

abbrev pub is_blackhole : List Text → Bool
is_blackhole (t ∷ []) = same_list t (codes "blackhole")
is_blackhole _ = false

unfoldable pub normalize_spec : Text → Result (List Text)
normalize_spec spec =
    if is_blackhole (words spec)
    then ok (codes "loss" ∷ codes "100%" ∷ [])
    else spec_of (words spec)
