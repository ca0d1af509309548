-- ===== src/Topo/Parsing.antt =====
-- How `ipaddress` reads the shapes of address that topo.py prints.
use srv6_mrc_emulator.Common.{
  ℕ, zero, suc, ◌+◌, ◌-◌, ◌/◌, ◌*◌, ◌≤◌, ◌<◌, ◌≡◌, ◌≢◌, ◌∙◌, ap, refl, inl, inr, Bool-cases, true,
  false, ◌||◌, List, [], ◌∷◌, ◌++◌, Option, none, some, ltb, ◌==◌, if◌then◌else◌, arith, length,
  length-append, take, drop, All, All-append, Option-cases,
}
use srv6_mrc_emulator.Topo.Defs.{Text}
use srv6_mrc_emulator.Topo.Text.{hex, hex_02, hex_value, hex_from, hex_digit, digit_value}
use srv6_mrc_emulator.Topo.Hex.{
  NoColon, hex_value-cons, hex_value-hex, hex_value-hex_02, length-hex, length-hex_02, NoColon-hex,
  NoColon-hex_02,
}
use srv6_mrc_emulator.Topo.Ipv6.{
  split_colon, onto_first, is_empty, parse_hextet, parse_hextets, empty_at, groups_of, ipv6_groups,
}

-- ':'.join(parts)
abbrev pub join_colon : List Text → Text
join_colon [] = []
join_colon (p ∷ []) = p
join_colon (p ∷ q ∷ ps) = p ++ 58 ∷ join_colon (q ∷ ps)

split_colon-append : (p s : Text) → NoColon p → split_colon (p ++ 58 ∷ s) ≡ p ∷ split_colon s
unfolding split_colon
split_colon-append [] s h = refl
split_colon-append (c ∷ p) s h =
    let other : (c == 58) ≡ false = ground (arith, h.0) in
    rw other (ap (onto_first c) (split_colon-append p s h.1))

split_colon-one : (p : Text) → NoColon p → split_colon p ≡ p ∷ []
unfolding split_colon
split_colon-one [] h = refl
split_colon-one (c ∷ p) h =
    let other : (c == 58) ≡ false = ground (arith, h.0) in
    rw other (ap (onto_first c) (split_colon-one p h.1))

pub split_colon-join_colon :
    (p : Text) (ps : List Text) → All NoColon (p ∷ ps) → split_colon (join_colon (p ∷ ps)) ≡ p ∷ ps
split_colon-join_colon p [] h = split_colon-one p h.0
split_colon-join_colon p (q ∷ ps) h =
    split_colon-append p (join_colon (q ∷ ps)) h.0 ∙ ap (◌∷◌ p) (split_colon-join_colon q ps h.1)

-- A text that spells a group.
pub record Spells (p : Text) (v : ℕ) : Type 0 where
  pub no_colon : NoColon p
  pub filled : is_empty p ≡ false
  pub parses : parse_hextet p ≡ some v

Spells-of_value :
    (p : Text) (v : ℕ)
    → NoColon p
    → length p ≤ 4
    → is_empty p ≡ false
    → hex_value 0 p ≡ some v
    → Spells p v
unfolding parse_hextet
Spells-of_value [] v h k e f = cc
Spells-of_value (c ∷ p) v h k e f = record {
  no_colon = h;
  filled = refl;
  parses = ground (arith, f, k);
}

is_empty-hex_from : (f n : ℕ) (c : ℕ) (acc : Text) → is_empty (hex_from f n (c ∷ acc)) ≡ false
unfolding hex_from
is_empty-hex_from zero n c acc = refl
is_empty-hex_from (suc f) n c acc = elim (Bool-cases (ltb n 16)) [
  | inl small ↦ rw small refl
  | inr big ↦ rw big (is_empty-hex_from f (n / 16) _ (c ∷ acc))
]

is_empty-hex : (n : ℕ) → is_empty (hex n) ≡ false
unfolding hex hex_from
is_empty-hex n = elim (Bool-cases (ltb n 16)) [
  | inl small ↦ rw small refl
  | inr big ↦ rw big (is_empty-hex_from 15 (n / 16) _ [])
]

pub Spells-hex : (n : ℕ) → n < 0x10000 → Spells (hex n) n
Spells-hex n h =
    Spells-of_value (hex n) n (NoColon-hex n h) (length-hex n h) (is_empty-hex n)
      (hex_value-hex n h)

is_empty-hex_02 : (n : ℕ) → is_empty (hex_02 n) ≡ false
unfolding hex_02
is_empty-hex_02 n = elim (Bool-cases (ltb n 16)) [
  | inl small ↦ rw small refl
  | inr big ↦ rw big (is_empty-hex n)
]

pub Spells-hex_02 : (n : ℕ) → n < 0x10000 → Spells (hex_02 n) n
Spells-hex_02 n h =
    Spells-of_value (hex_02 n) n (NoColon-hex_02 n h) (length-hex_02 n h) (is_empty-hex_02 n)
      (hex_value-hex_02 n h)

-- The groups of a text of parts.
abbrev of_parts : List Text → Option (List ℕ)
of_parts parts =
    if ltb (length parts) 3 || ltb 9 (length parts)
    then none
    else groups_of parts (empty_at 1 (take (length parts - 2) (drop 1 parts)))

ipv6_groups-join_colon :
    (p : Text) (ps : List Text)
    → All NoColon (p ∷ ps)
    → ipv6_groups (join_colon (p ∷ ps)) ≡ of_parts (p ∷ ps)
unfolding ipv6_groups
ipv6_groups-join_colon p ps h = ap of_parts (split_colon-join_colon p ps h)

module _ {a b c d e : Text} {va vb vc vd ve : ℕ} (sa : Spells a va) (sb : Spells b vb)
    (sc : Spells c vc) (sd : Spells d vd) (se : Spells e ve) where
  -- a:b:c:d::e
  pub groups_of_four_one :
      ipv6_groups (join_colon (a ∷ b ∷ c ∷ d ∷ [] ∷ e ∷ []))
      ≡ some (va ∷ vb ∷ vc ∷ vd ∷ 0 ∷ 0 ∷ 0 ∷ ve ∷ [])
  unfolding empty_at parse_hextets
  groups_of_four_one =
      ipv6_groups-join_colon a (b ∷ c ∷ d ∷ [] ∷ e ∷ [])
        (sa.no_colon, (sb.no_colon, (sc.no_colon, (sd.no_colon, (tt, (se.no_colon, tt))))))
      ∙ ground (
        arith, sa.filled, sb.filled, sc.filled, sd.filled, se.filled, sa.parses, sb.parses,
        sc.parses, sd.parses, se.parses,
      )

  -- a:b:c:d:e::
  pub groups_of_five :
      ipv6_groups (join_colon (a ∷ b ∷ c ∷ d ∷ e ∷ [] ∷ [] ∷ []))
      ≡ some (va ∷ vb ∷ vc ∷ vd ∷ ve ∷ 0 ∷ 0 ∷ 0 ∷ [])
  unfolding empty_at parse_hextets
  groups_of_five =
      ipv6_groups-join_colon a (b ∷ c ∷ d ∷ e ∷ [] ∷ [] ∷ [])
        (sa.no_colon, (sb.no_colon, (sc.no_colon, (sd.no_colon, (se.no_colon, (tt, (tt, tt)))))))
      ∙ ground (
        arith, sa.filled, sb.filled, sc.filled, sd.filled, se.filled, sa.parses, sb.parses,
        sc.parses, sd.parses, se.parses,
      )

module _ {a b c d e f : Text} {va vb vc vd ve vf : ℕ} (sa : Spells a va) (sb : Spells b vb)
    (sc : Spells c vc) (sd : Spells d vd) (se : Spells e ve) (sf : Spells f vf) where
  -- a:b:c:d:e:f::
  pub groups_of_six :
      ipv6_groups (join_colon (a ∷ b ∷ c ∷ d ∷ e ∷ f ∷ [] ∷ [] ∷ []))
      ≡ some (va ∷ vb ∷ vc ∷ vd ∷ ve ∷ vf ∷ 0 ∷ 0 ∷ [])
  unfolding empty_at parse_hextets
  groups_of_six =
      ipv6_groups-join_colon a (b ∷ c ∷ d ∷ e ∷ f ∷ [] ∷ [] ∷ []) (
        sa.no_colon,
        (sb.no_colon, (sc.no_colon, (sd.no_colon, (se.no_colon, (sf.no_colon, (tt, (tt, tt))))))),
      )
      ∙ ground (
        arith, sa.filled, sb.filled, sc.filled, sd.filled, se.filled, sf.filled, sa.parses,
        sb.parses, sc.parses, sd.parses, se.parses, sf.parses,
      )

  -- a:b:c:d:e:f:g:h
  pub groups_of_eight :
      {g h : Text} {vg vh : ℕ} (sg : Spells g vg) (sh : Spells h vh)
      → ipv6_groups (join_colon (a ∷ b ∷ c ∷ d ∷ e ∷ f ∷ g ∷ h ∷ []))
        ≡ some (va ∷ vb ∷ vc ∷ vd ∷ ve ∷ vf ∷ vg ∷ vh ∷ [])
  unfolding empty_at parse_hextets
  groups_of_eight {g} {h} sg sh =
      ipv6_groups-join_colon a (b ∷ c ∷ d ∷ e ∷ f ∷ g ∷ h ∷ []) (
        sa.no_colon,
        (
          sb.no_colon,
          (
            sc.no_colon,
            (sd.no_colon, (se.no_colon, (sf.no_colon, (sg.no_colon, (sh.no_colon, tt))))),
          ),
        ),
      )
      ∙ ground (
        arith, sa.filled, sb.filled, sc.filled, sd.filled, se.filled, sf.filled, sg.filled,
        sh.filled, sa.parses, sb.parses, sc.parses, sd.parses, se.parses, sf.parses, sg.parses,
        sh.parses,
      )

hex_value-append :
    (n v : ℕ) (p s : Text) → hex_value n p ≡ some v → hex_value n (p ++ s) ≡ hex_value v s
unfolding hex_value
hex_value-append n v [] s h = ground arith
hex_value-append n v (c ∷ p) s h = elim (Option-cases (digit_value c)) [
  | inl e ↦ ground (arith, e)
  | inr (d, e) ↦ ground (arith, e, hex_value-append (n * 16 + d) v p s)
]

is_empty-append : (p s : Text) → is_empty p ≡ false → is_empty (p ++ s) ≡ false
is_empty-append [] s h = cc
is_empty-append (c ∷ p) s h = refl

hex-digit : (n : ℕ) → n < 16 → hex n ≡ hex_digit n ∷ []
unfolding hex hex_from
hex-digit n h = let small : ltb n 16 ≡ true = ground arith in rw small

length-hex_digit : (n : ℕ) → n < 16 → length (hex n) ≡ 1
length-hex_digit n h = ap (length {A = ℕ}) (hex-digit n h)

hex_value-digit : (v n : ℕ) → n < 16 → hex_value v (hex n) ≡ some (v * 16 + n)
unfolding hex_value
hex_value-digit v n h = ap (hex_value v) (hex-digit n h) ∙ hex_value-cons v n [] h

-- A fixed beginning of at most three digits, and one digit more.
pub Spells-prefix :
    (p : Text) (v n : ℕ)
    → All (λ c. c ≢ 58) p
    → length p ≤ 3
    → is_empty p ≡ false
    → hex_value 0 p ≡ some v
    → n < 16
    → Spells (p ++ hex n) (v * 16 + n)
Spells-prefix p v n a b c d h =
    let bound : n < 0x10000 = omega (arith, h) in
    Spells-of_value (p ++ hex n) (v * 16 + n)
      (All-append (λ c. c ≢ 58) p (hex n) a (NoColon-hex n bound))
      (omega (arith, length-append p (hex n), b, length-hex_digit n h))
      (is_empty-append p (hex n) c) (hex_value-append 0 v p (hex n) d ∙ hex_value-digit v n h)
