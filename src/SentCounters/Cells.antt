-- ===== src/SentCounters/Cells.antt =====
-- srv6_mrc/mrc/sent_counters.py: the cells of published rows and of their differences.
use srv6_mrc_emulator.Common.{
  ℕ, suc, zero, ◌+◌, ◌<◌, ◌≡◌, ◌∙◌, ap, refl, true, List, [], ◌∷◌, map, Option, none, some, arith,
  length, get_or, range, range_from, Grid,
}
use srv6_mrc_emulator.SentCounters.Defs.{
  Rows, SentCounterWriter, rows_of, rows_fit, cell_delta, row_delta, delta,
}

-- The count of an EV in some rows.
abbrev pub cell : ℕ → ℕ → Rows → ℕ
cell p q rows = get_or (get_or rows p []) q 0

abbrev pub cell_or_zero : ℕ → ℕ → Option Rows → ℕ
cell_or_zero p q none = 0
cell_or_zero p q (some rows) = cell p q rows

get_or-row_delta :
    (q : ℕ) (cs ls : List ℕ)
    → q < length cs
    → q < length ls
    → get_or (row_delta cs ls) q 0 ≡ cell_delta (get_or cs q 0) (get_or ls q 0)
unfolding row_delta
get_or-row_delta q [] ls h k = absurd (omega (arith, h))
get_or-row_delta q (c ∷ cs) [] h k = absurd (omega (arith, k))
get_or-row_delta zero (c ∷ cs) (l ∷ ls) h k = refl
get_or-row_delta (suc q) (c ∷ cs) (l ∷ ls) h k =
    get_or-row_delta q cs ls (omega (arith, h)) (omega (arith, k))

-- Rows of the table's shape.
pub record Fits (n m : ℕ) (rows : Rows) : Type 0 where
  pub planes : length rows ≡ n
  pub paths : rows_fit m rows ≡ true

pub cell-delta :
    (m p q : ℕ) (cs ls : Rows)
    → p < length cs
    → p < length ls
    → q < m
    → rows_fit m cs ≡ true
    → rows_fit m ls ≡ true
    → cell p q (delta cs ls) ≡ cell_delta (cell p q cs) (cell p q ls)
unfolding delta
cell-delta m p q [] ls h k hq fc fl = absurd (omega (arith, h))
cell-delta m p q (c ∷ cs) [] h k hq fc fl = absurd (omega (arith, k))
cell-delta m zero q (c ∷ cs) (l ∷ ls) h k hq fc fl =
    get_or-row_delta q c l (ground arith) (ground arith)
cell-delta m (suc p) q (c ∷ cs) (l ∷ ls) h k hq fc fl =
    cell-delta m p q cs ls (omega (arith, h)) (omega (arith, k)) hq (ground arith) (ground arith)

pub length-map-range_from {ℓ} :
    {A : Type ℓ} (f : ℕ → A) (i n : ℕ) → length (map f (range_from i n)) ≡ n
length-map-range_from f i zero = refl
length-map-range_from f i (suc n) = ap suc (length-map-range_from f (suc i) n)

pub get_or-map-range_from {ℓ} :
    {A : Type ℓ} (f : ℕ → A) (d : A) (i n p : ℕ)
    → p < n
    → get_or (map f (range_from i n)) p d ≡ f (i + p)
get_or-map-range_from f d i zero p h = absurd (omega (arith, h))
get_or-map-range_from f d i (suc n) zero h = ap f (omega arith)
get_or-map-range_from f d i (suc n) (suc p) h =
    get_or-map-range_from f d (suc i) n p (omega (arith, h)) ∙ ap f (omega arith)

rows_fit-map :
    (g : Grid ℕ) (m i n : ℕ)
    → rows_fit m (map (λ plane. map (λ path. g plane path) (range m)) (range_from i n)) ≡ true
rows_fit-map g m i zero = refl
rows_fit-map g m i (suc n) =
    ground (arith, length-map-range_from (λ path. g i path) 0 m, rows_fit-map g m (suc i) n)

pub cell-rows_of :
    (w : SentCounterWriter) (p q : ℕ)
    → p < w.num_planes
    → q < w.num_paths
    → cell p q (rows_of w) ≡ w.sent p q
unfolding rows_of
cell-rows_of w p q hp hq =
    let row = λ (plane : ℕ). map (λ path. w.sent plane path) (range w.num_paths) in
    ap (λ (l : List ℕ). get_or l q 0) (get_or-map-range_from row [] 0 w.num_planes p hp)
    ∙ get_or-map-range_from (λ path. w.sent (0 + p) path) 0 0 w.num_paths q hq
    ∙ ap (λ (i : ℕ). w.sent i (0 + q)) (omega arith)
    ∙ ap (λ (j : ℕ). w.sent p j) (omega arith)

pub rows_of-Fits : (w : SentCounterWriter) → Fits w.num_planes w.num_paths (rows_of w)
unfolding rows_of
rows_of-Fits w = record {
  planes =
      length-map-range_from (λ plane. map (λ path. w.sent plane path) (range w.num_paths)) 0
        w.num_planes;
  paths = rows_fit-map w.sent w.num_paths 0 w.num_planes;
}
