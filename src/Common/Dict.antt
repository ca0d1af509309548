-- ===== src/Common/Dict.antt =====
-- A Python dict as an association list in insertion order, over keys with a decidable equality.
use mathlib.Core.Path.{◌≡◌, refl, sym, ap, ◌∙◌}
use mathlib.Core.Logic.{◌≢◌, ite}
use mathlib.Core.List.{List, [], ◌∷◌}
use mathlib.Core.Option.{Option, none, some}
use native.Mathlib.Omega.{arith}

module _ {ℓ} {K V : Type ℓ} (dec : Discrete K) where
  -- d.get(k)
  unfoldable pub find : K → List (K × V) → Option V
  find k [] = none
  find k ((j, v) ∷ m) = ite (dec j k) (some v) (find k m)

  -- d[k] = v: in place, or at the end.
  unfoldable pub put : K → V → List (K × V) → List (K × V)
  put k v [] = (k, v) ∷ []
  put k v ((j, w) ∷ m) = ite (dec j k) ((j, v) ∷ m) ((j, w) ∷ put k v m)

  -- d.pop(k, None)
  unfoldable pub remove : K → List (K × V) → List (K × V)
  remove k [] = []
  remove k ((j, w) ∷ m) = ite (dec j k) (remove k m) ((j, w) ∷ remove k m)

  pub find-put_same : (k : K) (v : V) (m : List (K × V)) → find k (put k v m) ≡ some v
  unfolding find put
  find-put_same k v [] = ground arith
  find-put_same k v ((j, w) ∷ m) = ground (arith, find-put_same k v m)

  pub find-put_ne : (k a : K) (v : V) (m : List (K × V)) → a ≢ k → find k (put a v m) ≡ find k m
  unfolding find put
  find-put_ne k a v [] h = ground arith
  find-put_ne k a v ((j, w) ∷ m) h = ground (arith, find-put_ne k a v m h)

  pub find-remove_same : (k : K) (m : List (K × V)) → find k (remove k m) ≡ none
  unfolding find remove
  find-remove_same k [] = refl
  find-remove_same k ((j, w) ∷ m) = ground (arith, find-remove_same k m)

  pub find-remove_ne : (k a : K) (m : List (K × V)) → a ≢ k → find k (remove a m) ≡ find k m
  unfolding find remove
  find-remove_ne k a [] h = refl
  find-remove_ne k a ((j, w) ∷ m) h = ground (arith, find-remove_ne k a m h)

  pub find-put_of_eq : (k a : K) (v : V) (m : List (K × V)) → a ≡ k → find k (put a v m) ≡ some v
  find-put_of_eq k a v m same = ap (λ j. find j (put a v m)) (sym same) ∙ find-put_same a v m

-- A test of two keys.
module _ {ℓ κ} {K : Type ℓ} {A : Type κ} (dec : Discrete K) where
  pub ite_yes : (j k : K) (x y : A) → j ≡ k → ite (dec j k) x y ≡ x
  ite_yes j k x y same = ground (arith, same)

  pub ite_no : (j k : K) (x y : A) → j ≢ k → ite (dec j k) x y ≡ y
  ite_no j k x y other = ground (arith, other)
