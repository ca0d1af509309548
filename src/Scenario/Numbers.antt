-- ===== src/Scenario/Numbers.antt =====
-- srv6_mrc/mrc/scenario.py: rates and durations; and `int` and `float` of a value, which policy.py calls. A text with an
-- underscore, or one that names an infinity or NaN, is taken for no number.
use srv6_mrc_emulator.Common.{
  ℕ, suc, ◌*◌, ◌/◌, ◌^◌, Bool, true, false, not, ◌&&◌, ◌||◌, List, [], ◌∷◌, map, Option, none, some,
  ltb, ◌==◌, if◌then◌else◌, length, same_list,
}
use srv6_mrc_emulator.Common.Texts.{
  is_digit, is_nil, lower, skip_spaces, take_digits, drop_digits, number, words, all_of,
}
use srv6_mrc_emulator.EvState.Defs.{Ratio}
use srv6_mrc_emulator.Topo.Defs.{Text}
use srv6_mrc_emulator.Topo.Text.{codes}
use srv6_mrc_emulator.Scenario.Outcome.{
  Place, Checked, done, scenario_error, wrong_value, wrong_type,
}
use srv6_mrc_emulator.Scenario.Value.{Value, flag, pos, negsuc, float, str}

-- The words that may follow a number.
abbrev pub is_unit : List Text → List Text → Bool
is_unit [] ws = is_nil ws
is_unit (u ∷ us) [] = is_unit us []
is_unit (u ∷ us) (w ∷ []) = same_list u (map lower w) || is_unit us (w ∷ [])
is_unit (u ∷ us) (w ∷ (v ∷ ws)) = false

abbrev pub number_of : Text → Option ℕ
number_of [] = none
number_of (c ∷ ds) = some (number 0 (c ∷ ds))

-- _RATE_RE: spaces, digits, and "pp", "pps" or nothing.
unfoldable pub rate_of : Text → Option ℕ
rate_of s =
    if is_unit (codes "pp" ∷ codes "pps" ∷ []) (words (drop_digits (skip_spaces s)))
    then number_of (take_digits (skip_spaces s))
    else none

abbrev pub or_error : {A : Type 0} → Place → Option A → Checked A
or_error path none = scenario_error path
or_error path (some n) = done n

-- A bool is an int, and True is 1.
unfoldable pub parse_rate : Value → Place → Checked ℕ
parse_rate (flag true) path = done 1
parse_rate (pos n) path = if ltb 0 n then done n else scenario_error path
parse_rate (str s) path = or_error path (rate_of (codes s))
parse_rate _ path = scenario_error path

abbrev pub whole_number : Text → Ratio
whole_number whole = record { num = number 0 whole; den = 1 }

-- (\.\d+)? after the digits `whole`: the number, and what follows it.
abbrev pub fraction : Text → ℕ → Text → Text → Ratio × Text
fraction whole c rest [] = (whole_number whole, c ∷ rest)
fraction whole c rest (d ∷ ds) = (
  record { num = number (number 0 whole) (d ∷ ds); den = 10 ^ length (d ∷ ds) },
  drop_digits rest,
)

unfoldable pub with_fraction : Text → Text → Ratio × Text
with_fraction whole [] = (whole_number whole, [])
with_fraction whole (c ∷ rest) =
    if c == 46 then fraction whole c rest (take_digits rest) else (whole_number whole, c ∷ rest)

-- Seconds, or milliseconds.
abbrev pub with_unit : Ratio × Text → Option Ratio
with_unit (r, rest) =
    if is_unit (codes "s" ∷ []) (words rest)
    then some r
    else if is_unit (codes "ms" ∷ []) (words rest)
    then some (record r { den = r.den * 1000 })
    else none

abbrev pub duration_after : Text → Text → Option Ratio
duration_after [] rest = none
duration_after (c ∷ ds) rest = with_unit (with_fraction (c ∷ ds) rest)

-- _DUR_RE: spaces, digits, a fraction or not, and "ms", "s" or nothing.
unfoldable pub duration_of : Text → Option Ratio
duration_of s = duration_after (take_digits (skip_spaces s)) (drop_digits (skip_spaces s))

unfoldable pub parse_duration : Value → Place → Checked Ratio
parse_duration (flag true) path = done (record { num = 1; den = 1 })
parse_duration (pos n) path =
    if ltb 0 n then done (record { num = n; den = 1 }) else scenario_error path
parse_duration (float negative r) path =
    if not negative && ltb 0 r.num then done r else scenario_error path
parse_duration (str s) path = or_error path (duration_of (codes s))
parse_duration _ path = scenario_error path

abbrev pub positive : Option Ratio → Checked Ratio
positive none = wrong_value
positive (some r) = if ltb 0 r.num then done r else wrong_value

-- The flag --duration. A text of spaces alone is refused as one that is no duration.
unfoldable pub parse_duration_str : Text → Checked Ratio
parse_duration_str s = positive (duration_of s)

-- A number with its sign; `negative` zero is zero.
pub record Signed : Type 0 where
  pub negative : Bool
  pub size : Ratio

-- The sign of a text, and the rest.
abbrev pub unsigned : Text → Bool × Text
unsigned [] = (false, [])
unsigned (c ∷ s) = if c == 45 then (true, s) else if c == 43 then (false, s) else (false, c ∷ s)

abbrev pub signed_int : Bool → List Text → Option Signed
signed_int negative ((c ∷ w) ∷ []) =
    if all_of is_digit (c ∷ w)
    then some (record { negative = negative; size = whole_number (c ∷ w) })
    else none
signed_int negative _ = none

-- int(s), where the sign stands before the digits.
abbrev pub int_word : List Text → Option Signed
int_word (w ∷ []) = signed_int (unsigned w).0 ((unsigned w).1 ∷ [])
int_word _ = none

unfoldable pub int_of_text : Text → Option Signed
int_of_text s = int_word (words s)

-- The exponent of ten that ends a number: the number with it.
abbrev pub scaled : Bool → Ratio → Option Signed → Option Signed
scaled negative r none = none
scaled negative r (some e) = some (
    if e.negative
    then record { negative = negative; size = record r { den = r.den * 10 ^ e.size.num } }
    else record { negative = negative; size = record r { num = r.num * 10 ^ e.size.num } })

abbrev pub exponent : Bool → Ratio × Text → Option Signed
exponent negative (r, []) = some (record { negative = negative; size = r })
exponent negative (r, c ∷ s) =
    if lower c == 101
    then scaled negative r (signed_int (unsigned s).0 ((unsigned s).1 ∷ []))
    else none

-- The digits before the point may be missing, and those after it, but not both.
abbrev pub mantissa : Text → Text → Ratio × Text
mantissa whole [] = (whole_number whole, [])
mantissa whole (c ∷ rest) =
    if c == 46
    then (
      record {
        num = number (number 0 whole) (take_digits rest);
        den = 10 ^ length (take_digits rest);
      },
      drop_digits rest,
    )
    else (whole_number whole, c ∷ rest)

-- s[1:], past a point
abbrev pub after_point : Text → Text
after_point [] = []
after_point (c ∷ s) = if c == 46 then s else []

abbrev pub has_digits : Text → Bool
has_digits s = not (is_nil (take_digits s) && is_nil (take_digits (after_point (drop_digits s))))

abbrev pub float_word : List Text → Option Signed
float_word (w ∷ []) =
    let s = (unsigned w).1 in
    if has_digits s
    then exponent (unsigned w).0 (mantissa (take_digits s) (drop_digits s))
    else none
float_word _ = none

unfoldable pub float_of_text : Text → Option Signed
float_of_text s = float_word (words s)

abbrev pub or_wrong : Option Signed → Checked Signed
or_wrong none = wrong_value
or_wrong (some n) = done n

abbrev pub of_bool : Bool → Signed
of_bool b = record { negative = false; size = record { num = if b then 1 else 0; den = 1 } }

abbrev pub of_pos : ℕ → Signed
of_pos n = record { negative = false; size = record { num = n; den = 1 } }

abbrev pub of_negsuc : ℕ → Signed
of_negsuc n = record { negative = true; size = record { num = suc n; den = 1 } }

-- int(v): towards zero.
unfoldable pub int_of : Value → Checked Signed
int_of (flag b) = done (of_bool b)
int_of (pos n) = done (of_pos n)
int_of (negsuc n) = done (of_negsuc n)
int_of (float negative r) =
    done (record { negative = negative; size = record { num = r.num / r.den; den = 1 } })
int_of (str s) = or_wrong (int_of_text (codes s))
int_of _ = wrong_type

unfoldable pub float_of : Value → Checked Signed
float_of (flag b) = done (of_bool b)
float_of (pos n) = done (of_pos n)
float_of (negsuc n) = done (of_negsuc n)
float_of (float negative r) = done (record { negative = negative; size = r })
float_of (str s) = or_wrong (float_of_text (codes s))
float_of _ = wrong_type
