-- ===== src/Common/Cells.antt =====
-- Grids indexed [plane][path], and the cells that the nested `range` loops visit.
use Prim.Native.Nat.{ℕ, zero, suc, ◌+◌, ◌*◌, ◌≤◌, ◌<◌}
use mathlib.Core.Path.{◌≡◌, refl, ap}
use mathlib.Core.Logic.{◌⊎◌, inl, inr}
use mathlib.Core.List.{List, [], ◌∷◌, ◌++◌, map}
use mathlib.Core.Bool.{Bool, true, ◌&&◌}
use native.Mathlib.Omega.{arith}
use srv6_mrc_emulator.Common.Tests.{◌==◌, ltb, leb, if◌then◌else◌, Bool-cases}
use srv6_mrc_emulator.Common.Lists.{length, length-append, count_if, All, All-append}

-- A grid is a function of the plane and the path; the code checks both before it indexes.
abbrev pub Grid {ℓ} : Type ℓ → Type ℓ
Grid A = ℕ → ℕ → A

abbrev pub same_cell : ℕ → ℕ → ℕ → ℕ → Bool
same_cell p q i j = p == i && q == j

abbrev pub set_cell {ℓ} : {A : Type ℓ} → Grid A → ℕ → ℕ → A → Grid A
set_cell g p q v i j = if same_cell p q i j then v else g i j

-- `range(n)`, from `i` on.
abbrev pub range_from : ℕ → ℕ → List ℕ
range_from i zero = []
range_from i (suc n) = i ∷ range_from (suc i) n

abbrev pub range : ℕ → List ℕ
range n = range_from 0 n

-- for plane in planes: for path in range(num_paths)
abbrev pub rows_cells : ℕ → List ℕ → List (ℕ × ℕ)
rows_cells num_paths [] = []
rows_cells num_paths (p ∷ ps) = map (λ q. (p, q)) (range num_paths) ++ rows_cells num_paths ps

unfoldable pub cells : ℕ → ℕ → List (ℕ × ℕ)
cells num_planes num_paths = rows_cells num_paths (range num_planes)

pub same_cell_self : (p q : ℕ) → same_cell p q p q ≡ true
same_cell_self p q = ground arith

pub same_cell→eq : (p q i j : ℕ) → same_cell p q i j ≡ true → (p ≡ i) × (q ≡ j)
same_cell→eq p q i j h = ground arith

-- A property of all the cells survives a write of a value that has it.
pub set_cell_all {ℓ κ} :
    {A : Type ℓ} (P : A → Type κ) (g : Grid A) (p q : ℕ) (v : A)
    → ((i j : ℕ) → P (g i j))
    → P v
    → (i j : ℕ) → P (set_cell g p q v i j)
set_cell_all P g p q v h k i j = elim (Bool-cases (same_cell p q i j)) [
  | inl e ↦ rw e k
  | inr e ↦ rw e (h i j)
]

pub set_cell_self {ℓ} : {A : Type ℓ} (g : Grid A) (p q : ℕ) (v : A) → set_cell g p q v p q ≡ v
set_cell_self g p q v = rw (same_cell_self p q)

length-map_pair : (p : ℕ) (qs : List ℕ) → length {A = ℕ × ℕ} (map (λ q. (p, q)) qs) ≡ length qs
length-map_pair p [] = refl
length-map_pair p (q ∷ qs) = ap suc (length-map_pair p qs)

pub length-range_from : (i n : ℕ) → length (range_from i n) ≡ n
length-range_from i zero = refl
length-range_from i (suc n) = ap suc (length-range_from (suc i) n)

length-rows_cells : (m : ℕ) (ps : List ℕ) → length (rows_cells m ps) ≡ length ps * m
length-rows_cells m [] = omega arith
length-rows_cells m (p ∷ ps) = omega (
  arith,
  length-append (map (λ q. (p, q)) (range m)) (rows_cells m ps),
  length-map_pair p (range m),
  length-range_from 0 m,
  length-rows_cells m ps,
)

pub length-cells : (n m : ℕ) → length (cells n m) ≡ n * m
unfolding cells
length-cells n m =
    omega (arith, length-rows_cells m (range n), ap (λ (k : ℕ). k * m) (length-range_from 0 n))

-- Each cell of the grid is visited once, and no other cell is.
abbrev pub visits : ℕ → ℕ → List (ℕ × ℕ) → ℕ
visits p q cs = count_if (λ c. same_cell p q c.0 c.1) cs

count_if-append {ℓ} :
    {A : Type ℓ} (f : A → Bool) (xs ys : List A)
    → count_if f (xs ++ ys) ≡ count_if f xs + count_if f ys
count_if-append f [] ys = omega arith
count_if-append f (x ∷ xs) ys = ground (arith, count_if-append f xs ys)

abbrev row_visits : ℕ → ℕ → ℕ → ℕ
row_visits q i n = if leb i q && ltb q (i + n) then 1 else 0

visits-row :
    (p q r i n : ℕ)
    → visits p q (map (λ j. (r, j)) (range_from i n)) ≡ (if p == r then row_visits q i n else 0)
visits-row p q r i zero = ground arith
visits-row p q r i (suc n) = ground (arith, visits-row p q r (suc i) n)

visits-rows :
    (p q m i n : ℕ)
    → visits p q (rows_cells m (range_from i n))
      ≡ (if leb i p && ltb p (i + n) then row_visits q 0 m else 0)
visits-rows p q m i zero = ground arith
visits-rows p q m i (suc n) = ground (
  arith,
  count_if-append (λ c. same_cell p q c.0 c.1) (map (λ j. (i, j)) (range m))
      (rows_cells m (range_from (suc i) n)),
  visits-row p q i 0 m,
  visits-rows p q m (suc i) n,
)

pub visits-cells : (p q n m : ℕ) → p < n → q < m → visits p q (cells n m) ≡ 1
unfolding cells
visits-cells p q n m hp hq = ground (arith, visits-rows p q m 0 n)

pub visits-cells_outside : (p q n m : ℕ) → (n ≤ p) ⊎ (m ≤ q) → visits p q (cells n m) ≡ 0
unfolding cells
visits-cells_outside p q n m h = ground (arith, visits-rows p q m 0 n)

abbrev pub IsCell : ℕ → ℕ → ℕ × ℕ → Type 0
IsCell n m c = (c.0 < n) × (c.1 < m)

All-row :
    (r n m i k : ℕ) → r < n → i + k ≤ m → All (IsCell n m) (map (λ j. (r, j)) (range_from i k))
All-row r n m i zero hr h = tt
All-row r n m i (suc k) hr h = ((hr, omega arith), All-row r n m (suc i) k hr (omega arith))

All-rows : (n m i k : ℕ) → i + k ≤ n → All (IsCell n m) (rows_cells m (range_from i k))
All-rows n m i zero h = tt
All-rows n m i (suc k) h =
    All-append (IsCell n m) (map (λ j. (i, j)) (range m)) (rows_cells m (range_from (suc i) k))
      (All-row i n m 0 m (omega arith) (omega arith)) (All-rows n m (suc i) k (omega arith))

pub All-cells : (n m : ℕ) → All (IsCell n m) (cells n m)
unfolding cells
All-cells n m = All-rows n m 0 n (omega arith)
