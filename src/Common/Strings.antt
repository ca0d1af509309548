-- ===== src/Common/Strings.antt =====
-- The native strings, and lists of numbers, as keys of a dictionary.
use Prim.Native.String.{String}
use Prim.Native.Nat.{ℕ}
use mathlib.Core.Path.{◌≡◌, refl, sym, ap, ◌∙◌}
use mathlib.Core.Logic.{◌≢◌}
use mathlib.Core.Bool.{Bool, true, false, ◌&&◌}
use mathlib.Core.List.{List, [], ◌∷◌}
use srv6_mrc_emulator.Common.Tests.{◌==◌, ==_iff}
use srv6_mrc_emulator.Common.Tables.{and_true}
use text.Mathlib.Text.{◌==◌ as str_eq}
use text.Mathlib.TextEquality.{eq_iff}

pub differ : (s t : String) → str_eq s t ≡ false → s ≢ t
differ s t e same = let equal = (eq_iff s t).1 same in cc

abbrev decide_by : (s t : String) (b : Bool) → str_eq s t ≡ b → Dec (s ≡ t)
decide_by s t true e = yes ((eq_iff s t).0 e)
decide_by s t false e = no (differ s t e)

abbrev pub string_discrete : Discrete String
string_discrete s t = decide_by s t (str_eq s t) refl

-- Lists of numbers as keys.
abbrev pub same_list : List ℕ → List ℕ → Bool
same_list [] [] = true
same_list [] (y ∷ ys) = false
same_list (x ∷ xs) [] = false
same_list (x ∷ xs) (y ∷ ys) = x == y && same_list xs ys

pub same_list→eq : (xs ys : List ℕ) → same_list xs ys ≡ true → xs ≡ ys
same_list→eq [] [] h = refl
same_list→eq [] (y ∷ ys) h = cc
same_list→eq (x ∷ xs) [] h = cc
same_list→eq (x ∷ xs) (y ∷ ys) h =
    let (first, rest) = and_true (x == y) (same_list xs ys) h in
    ap (λ z. z ∷ xs) ((==_iff x y).0 first) ∙ ap (◌∷◌ y) (same_list→eq xs ys rest)

pub same_list_refl : (xs : List ℕ) → same_list xs xs ≡ true
same_list_refl [] = refl
same_list_refl (x ∷ xs) = rw ((==_iff x x).1 refl) (same_list_refl xs)

pub lists_differ : (xs ys : List ℕ) → same_list xs ys ≡ false → xs ≢ ys
lists_differ xs ys e same =
    let equal : same_list xs ys ≡ true = ap (same_list xs) (sym same) ∙ same_list_refl xs in cc

abbrev decide_list : (xs ys : List ℕ) (b : Bool) → same_list xs ys ≡ b → Dec (xs ≡ ys)
decide_list xs ys true e = yes (same_list→eq xs ys e)
decide_list xs ys false e = no (lists_differ xs ys e)

abbrev pub list_discrete : Discrete (List ℕ)
list_discrete xs ys = decide_list xs ys (same_list xs ys) refl
