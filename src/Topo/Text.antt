-- ===== src/Topo/Text.antt =====
-- Python's number formats and `int(s, 16)`, over lists of ASCII codes.
use Prim.Native.Char.{code}
use Prim.Native.String.{String}
use srv6_mrc_emulator.Common.{
  ℕ, zero, suc, ◌+◌, ◌-◌, ◌*◌, ◌/◌, ◌%◌, ◌&&◌, [], ◌∷◌, Option, none, some, ltb, leb, if◌then◌else◌,
}
use srv6_mrc_emulator.Topo.Defs.{Text, decimal}

-- The codes of an ASCII literal.
abbrev pub codes : String → Text
codes String.[] = []
codes (String.◌∷◌ c s) = code c ∷ codes s

abbrev pub hex_digit : ℕ → ℕ
hex_digit d = if ltb d 10 then 48 + d else 87 + d

-- Sixteen digits are enough for 64 bits.
unfoldable pub hex_from : ℕ → ℕ → Text → Text
hex_from zero n acc = acc
hex_from (suc fuel) n acc =
    let more = hex_from fuel (n / 16) (hex_digit (n % 16) ∷ acc) in
    if ltb n 16 then hex_digit n ∷ acc else more

-- f"{n:x}"
unfoldable pub hex : ℕ → Text
hex n = hex_from 16 n []

-- f"{n:02x}"
unfoldable pub hex_02 : ℕ → Text
hex_02 n = if ltb n 16 then 48 ∷ hex n else hex n

-- f"{n:02d}"
unfoldable pub decimal_02 : ℕ → Text
decimal_02 n = if ltb n 10 then 48 ∷ decimal n else decimal n

-- A hexadecimal digit of either case.
unfoldable pub digit_value : ℕ → Option ℕ
digit_value c =
    if leb 48 c && leb c 57
    then some (c - 48)
    else if leb 97 c && leb c 102
    then some (c - 87)
    else if leb 65 c && leb c 70
    then some (c - 55)
    else none

-- `int(s, 16)` of digits after `n`; none where it raises.
unfoldable pub hex_value : ℕ → Text → Option ℕ
hex_value n [] = some n
hex_value n (c ∷ s) = elim (digit_value c) [ none ↦ none | some d ↦ hex_value (n * 16 + d) s ]
