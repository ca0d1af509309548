-- ===== src/Topo/Ipv6.antt =====
-- What topo.py uses of Python's `ipaddress.IPv6Address`: the eight groups of a text. A dotted ending or
-- a zone, which no address of the emulator has, is refused here.
use srv6_mrc_emulator.Common.{
  ℕ, zero, suc, ◌+◌, ◌-◌, Bool, true, false, ◌&&◌, ◌||◌, List, [], ◌∷◌, ◌++◌, Option, none, some,
  ltb, leb, ◌==◌, if◌then◌else◌, length, take, drop, get_or,
}
use srv6_mrc_emulator.Topo.Defs.{Text}
use srv6_mrc_emulator.Topo.Text.{hex_value}

-- `ip_str.split(':')`: the first part, and the others.
abbrev pub onto_first : ℕ → List Text → List Text
onto_first c [] = []
onto_first c (p ∷ ps) = (c ∷ p) ∷ ps

unfoldable pub split_colon : Text → List Text
split_colon [] = [] ∷ []
split_colon (c ∷ s) = if c == 58 then [] ∷ split_colon s else onto_first c (split_colon s)

abbrev pub is_empty : Text → Bool
is_empty [] = true
is_empty (c ∷ s) = false

unfoldable pub parse_hextet : Text → Option ℕ
parse_hextet [] = none
parse_hextet (c ∷ s) = if leb (length (c ∷ s)) 4 then hex_value 0 (c ∷ s) else none

unfoldable pub parse_hextets : List Text → Option (List ℕ)
parse_hextets [] = some []
parse_hextets (p ∷ ps) = elim (parse_hextet p) [
  | none ↦ none
  | some h ↦ elim (parse_hextets ps) [ none ↦ none | some hs ↦ some (h ∷ hs) ]
]

-- The indices of the empty parts, from `i` on.
unfoldable pub empty_at : ℕ → List Text → List ℕ
empty_at i [] = []
empty_at i (p ∷ ps) = if is_empty p then i ∷ empty_at (i + 1) ps else empty_at (i + 1) ps

abbrev pub zeros : ℕ → List ℕ
zeros zero = []
zeros (suc n) = 0 ∷ zeros n

-- The groups before and after a "::", with zeros between.
abbrev pub fill : Option (List ℕ) → Option (List ℕ) → Option (List ℕ)
fill none los = none
fill (some his) none = none
fill (some his) (some los) = some (his ++ zeros (8 - (length his + length los)) ++ los)

-- An empty first or last part beside the skipped one belongs to it.
abbrev pub around : List Text → ℕ → Option (List ℕ)
around parts skip =
    let hi = if is_empty (get_or parts 0 []) then skip - 1 else skip in
    let lo =
      if is_empty (get_or parts (length parts - 1) [])
      then length parts - skip - 2
      else length parts - skip - 1 in
    if is_empty (get_or parts 0 []) && ltb 0 hi
    then none
    else if is_empty (get_or parts (length parts - 1) []) && ltb 0 lo
    then none
    else if ltb 7 (hi + lo)
    then none
    else fill (parse_hextets (take hi parts)) (parse_hextets (take lo (drop (skip + 1) parts)))

abbrev pub whole : List Text → Option (List ℕ)
whole parts = if length parts == 8 then parse_hextets parts else none

abbrev pub groups_of : List Text → List ℕ → Option (List ℕ)
groups_of parts [] = whole parts
groups_of parts (skip ∷ []) = around parts skip
groups_of parts (skip ∷ second ∷ more) = none

-- `IPv6Address(s)`, by its groups.
unfoldable pub ipv6_groups : Text → Option (List ℕ)
ipv6_groups s =
    let parts = split_colon s in
    if ltb (length parts) 3 || ltb 9 (length parts)
    then none
    else groups_of parts (empty_at 1 (take (length parts - 2) (drop 1 parts)))
