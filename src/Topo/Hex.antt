-- ===== src/Topo/Hex.antt =====
-- What is printed in hexadecimal is read back.
use native.Mathlib.Nat.{pow-suc}
use srv6_mrc_emulator.Common.{
  ℕ, zero, suc, ◌+◌, ◌*◌, ◌/◌, ◌%◌, ◌^◌, ◌≤◌, ◌<◌, ◌≡◌, ◌≢◌, ◌∙◌, ap, true, inl, inr, Bool-cases,
  ltb, [], ◌∷◌, Option, none, some, arith, length, All,
}
use srv6_mrc_emulator.Topo.Defs.{Text}
use srv6_mrc_emulator.Topo.Text.{hex_digit, hex_from, hex, hex_02, digit_value, hex_value}

div-lt_pow16 : (k n : ℕ) → n < 16 ^ suc k → n / 16 < 16 ^ k
div-lt_pow16 k n h = let e : 16 ^ suc k ≡ 16 ^ k * 16 = pow-suc 16 k in omega (arith, e, h)

digit_value-hex_digit : (d : ℕ) → d < 16 → digit_value (hex_digit d) ≡ some d
unfolding digit_value
digit_value-hex_digit d h = ground arith

pub hex_value-cons :
    (n d : ℕ) (acc : Text) → d < 16 → hex_value n (hex_digit d ∷ acc) ≡ hex_value (n * 16 + d) acc
unfolding hex_value
hex_value-cons n d acc h =
    ap (λ o. elim o as (λ _. Option ℕ) [ none ↦ none | some e ↦ hex_value (n * 16 + e) acc ])
      (digit_value-hex_digit d h)

hex_value-hex_from :
    (f n : ℕ) (acc : Text) → n < 16 ^ suc f → hex_value 0 (hex_from (suc f) n acc) ≡ hex_value n acc
unfolding hex_from
hex_value-hex_from zero n acc h = ground (arith, hex_value-cons 0 n acc)
hex_value-hex_from (suc f) n acc h = elim (Bool-cases (ltb n 16)) [
  | inl small ↦ rw small (ground (arith, hex_value-cons 0 n acc))
  | inr big ↦ rw big (
      hex_value-hex_from f (n / 16) (hex_digit (n % 16) ∷ acc) (div-lt_pow16 (suc f) n h)
      ∙ ground (arith, hex_value-cons (n / 16) (n % 16) acc))
]

pub hex_value-hex : (n : ℕ) → n < 0x10000 → hex_value 0 (hex n) ≡ some n
unfolding hex hex_value
hex_value-hex n h = hex_value-hex_from 15 n [] (omega (arith, h))

pub hex_value-hex_02 : (n : ℕ) → n < 0x10000 → hex_value 0 (hex_02 n) ≡ some n
unfolding hex_02 hex_value digit_value
hex_value-hex_02 n h = elim (Bool-cases (ltb n 16)) [
  | inl small ↦ rw small (hex_value-hex n h)
  | inr big ↦ rw big (hex_value-hex n h)
]

length-hex_from :
    (f k n : ℕ) (acc : Text)
    → n < 16 ^ suc k
    → k ≤ f
    → length (hex_from (suc f) n acc) ≤ suc k + length acc
unfolding hex_from
length-hex_from zero k n acc h e = ground arith
length-hex_from (suc f) zero n acc h e =
    let small : ltb n 16 ≡ true = ground arith in rw small (omega arith)
length-hex_from (suc f) (suc k) n acc h e = elim (Bool-cases (ltb n 16)) [
  | inl small ↦ rw small (omega arith)
  | inr big ↦ rw big (
      omega (
        arith,
        length-hex_from f k (n / 16) (hex_digit (n % 16) ∷ acc) (div-lt_pow16 (suc k) n h)
            (omega (arith, e)),
      ))
]

pub length-hex : (n : ℕ) → n < 0x10000 → length (hex n) ≤ 4
unfolding hex
length-hex n h = omega (arith, length-hex_from 15 3 n [] (omega (arith, h)) (omega arith))

pub length-hex_02 : (n : ℕ) → n < 0x10000 → length (hex_02 n) ≤ 4
unfolding hex_02 hex
length-hex_02 n h = elim (Bool-cases (ltb n 16)) [
  | inl small ↦ rw small (
      let tiny : n < 16 ^ suc 0 = ground arith in
      omega (arith, length-hex_from 15 0 n [] tiny (omega arith)))
  | inr big ↦ rw big (length-hex n h)
]

-- Hexadecimal text has no colon, which separates the groups of an address.
abbrev pub NoColon : Text → Type 0
NoColon = All (λ c. c ≢ 58)

hex_digit-ne_colon : (d : ℕ) → d < 16 → hex_digit d ≢ 58
hex_digit-ne_colon d h = ground arith

NoColon-hex_from :
    (f n : ℕ) (acc : Text) → NoColon acc → n < 16 ^ suc f → NoColon (hex_from (suc f) n acc)
unfolding hex_from
NoColon-hex_from zero n acc h e =
    let small : ltb n 16 ≡ true = ground arith in
    rw small (hex_digit-ne_colon n (omega (arith, e)), h)
NoColon-hex_from (suc f) n acc h e = elim (Bool-cases (ltb n 16)) [
  | inl small ↦ rw small (hex_digit-ne_colon n (ground arith), h)
  | inr big ↦ rw big (
      NoColon-hex_from f (n / 16) (hex_digit (n % 16) ∷ acc)
        (hex_digit-ne_colon (n % 16) (omega arith), h) (div-lt_pow16 (suc f) n e))
]

pub NoColon-hex : (n : ℕ) → n < 0x10000 → NoColon (hex n)
unfolding hex
NoColon-hex n h = NoColon-hex_from 15 n [] tt (omega (arith, h))

pub NoColon-hex_02 : (n : ℕ) → n < 0x10000 → NoColon (hex_02 n)
unfolding hex_02
NoColon-hex_02 n h = elim (Bool-cases (ltb n 16)) [
  | inl small ↦ rw small (omega arith, NoColon-hex n h)
  | inr big ↦ rw big (NoColon-hex n h)
]
