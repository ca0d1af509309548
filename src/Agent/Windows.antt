-- ===== src/Agent/Windows.antt =====
-- srv6_mrc/mrc/agent.py: the rows that a rotation of the sent counts builds, cell by cell.
use srv6_mrc_emulator.Common.{
  ℕ, suc, zero, ◌+◌, ◌-◌, ◌<◌, ◌≡◌, ◌∙◌, ap, refl, true, ◌&&◌, List, [], ◌∷◌, map, Option, none,
  some, leb, ◌==◌, if◌then◌else◌, arith, length, get_or, range, range_from, Grid, set_cell,
  same_cell, same_cell→eq, push_bounded, ok,
}
use srv6_mrc_emulator.Topo.Defs.{Shape}
use srv6_mrc_emulator.SentCounters.Cells.{
  cell, cell_or_zero, get_or-map-range_from, length-map-range_from,
}
use srv6_mrc_emulator.LossCompute.Ring.{SentWindowRing, push, check_rows}
use srv6_mrc_emulator.Agent.Sender.{add_row, add_rows, add_delta, rows_of_window}

-- What row `plane`, from `path` on, adds to the EV (p, q).
abbrev row_part : ℕ → ℕ → List ℕ → ℕ → ℕ → ℕ
row_part plane path row p q = if p == plane && leb path q then get_or row (q - path) 0 else 0

get_or-minus :
    (n q path : ℕ) (row : List ℕ)
    → path < q
    → get_or (n ∷ row) (q - path) 0 ≡ get_or row (q - (path + 1)) 0
get_or-minus n q path row h =
    let e : q - path ≡ suc (q - (path + 1)) = omega (arith, h) in
    ap (λ (i : ℕ). get_or (n ∷ row) i 0) e

get_or-minus_self : (n q : ℕ) (row : List ℕ) → get_or (n ∷ row) (q - q) 0 ≡ n
get_or-minus_self n q row =
    let e : q - q ≡ 0 = omega arith in ap (λ (i : ℕ). get_or (n ∷ row) i 0) e

row_part-cons :
    (plane path n p q : ℕ) (row : List ℕ)
    → row_part plane path (n ∷ row) p q
      ≡ (if same_cell plane path p q then n else 0) + row_part plane (path + 1) row p q
row_part-cons plane path n p q row =
    grind (arith, get_or-minus n q path row, get_or-minus_self n q row)

add_row-cell :
    (m plane path p q : ℕ) (row : List ℕ) (g : Grid ℕ)
    → q < m
    → add_row m plane path row g p q ≡ g p q + row_part plane path row p q
unfolding add_row
add_row-cell m plane path p q [] g h = ground arith
add_row-cell m plane path p q (n ∷ row) g h =
    let added = set_cell g plane path (g plane path + n) in
    ground (
      arith,
      row_part-cons plane path n p q row,
      add_row-cell m plane (path + 1) p q row added h,
      same_cell→eq plane path p q,
    )

-- What rows, from plane `plane` on, add to the EV (p, q).
abbrev rows_part : ℕ → List (List ℕ) → ℕ → ℕ → ℕ
rows_part plane rows p q = if leb plane p then cell (p - plane) q rows else 0

cell-minus :
    (row : List ℕ) (rows : List (List ℕ)) (plane p q : ℕ)
    → plane < p
    → cell (p - plane) q (row ∷ rows) ≡ cell (p - (plane + 1)) q rows
cell-minus row rows plane p q h =
    let e : p - plane ≡ suc (p - (plane + 1)) = omega (arith, h) in
    ap (λ (i : ℕ). cell i q (row ∷ rows)) e

cell-minus_self :
    (row : List ℕ) (rows : List (List ℕ)) (p q : ℕ)
    → cell (p - p) q (row ∷ rows) ≡ get_or row (q - 0) 0
cell-minus_self row rows p q =
    let e : p - p ≡ 0 = omega arith in
    let whole : q ≡ q - 0 = omega arith in
    ap (λ (i : ℕ). cell i q (row ∷ rows)) e ∙ ap (λ (i : ℕ). get_or row i 0) whole

rows_part-cons :
    (row : List ℕ) (rows : List (List ℕ)) (plane p q : ℕ)
    → rows_part plane (row ∷ rows) p q ≡ row_part plane 0 row p q + rows_part (plane + 1) rows p q
rows_part-cons row rows plane p q =
    grind (arith, cell-minus row rows plane p q, cell-minus_self row rows p q)

add_rows-cell :
    (n m plane p q : ℕ) (rows : List (List ℕ)) (g : Grid ℕ)
    → p < n
    → q < m
    → add_rows n m plane rows g p q ≡ g p q + rows_part plane rows p q
unfolding add_rows
add_rows-cell n m plane p q [] g hp hq = ground arith
add_rows-cell n m plane p q (row ∷ rows) g hp hq = ground (
  arith,
  rows_part-cons row rows plane p q,
  add_row-cell m plane 0 p q row g hq,
  add_rows-cell n m (plane + 1) p q rows (add_row m plane 0 row g) hp hq,
)

pub add_delta-cell :
    (sh : Shape) (delta : Option (List (List ℕ))) (g : Grid ℕ) (p q : ℕ)
    → p < sh.num_planes
    → q < sh.num_spines
    → add_delta sh delta g p q ≡ g p q + cell_or_zero p q delta
add_delta-cell sh none g p q hp hq = omega arith
add_delta-cell sh (some rows) g p q hp hq =
    let e : p - 0 ≡ p = omega arith in
    let whole : rows_part 0 rows p q ≡ cell p q rows =
      ground (arith, ap (λ (i : ℕ). cell i q rows) e) in
    add_rows-cell sh.num_planes sh.num_spines 0 p q rows g hp hq ∙ ap (λ (k : ℕ). g p q + k) whole

pub rows_of_window-cell :
    (sh : Shape) (g : Grid ℕ) (p q : ℕ)
    → p < sh.num_planes
    → q < sh.num_spines
    → cell p q (rows_of_window sh g) ≡ g p q
unfolding rows_of_window
rows_of_window-cell sh g p q hp hq =
    let row = λ (plane : ℕ). map (λ path. g plane path) (range sh.num_spines) in
    ap (λ (l : List ℕ). get_or l q 0) (get_or-map-range_from row [] 0 sh.num_planes p hp)
    ∙ get_or-map-range_from (λ path. g (0 + p) path) 0 0 sh.num_spines q hq
    ∙ ap (λ (i : ℕ). g i (0 + q)) (omega arith)
    ∙ ap (λ (j : ℕ). g p j) (omega arith)

check_rows-map :
    (g : Grid ℕ) (m i n : ℕ)
    → check_rows m (map (λ plane. map (λ path. g plane path) (range m)) (range_from i n)) ≡ ok tt
unfolding check_rows
check_rows-map g m i zero = refl
check_rows-map g m i (suc n) =
    ground (arith, length-map-range_from (λ path. g i path) 0 m, check_rows-map g m (suc i) n)

-- A ring of the topology's shape takes the window of a rotation.
pub push-rows_of_window :
    (sh : Shape) (r : SentWindowRing) (g : Grid ℕ) (start stop id : ℕ)
    → r.num_planes ≡ sh.num_planes
    → r.num_paths ≡ sh.num_spines
    → push r
        (record { start_ns = start; end_ns = stop; sent = rows_of_window sh g; window_id = id })
      ≡ ok (record r {
        ring = push_bounded r.capacity r.ring (record {
          start_ns = start;
          end_ns = stop;
          sent = rows_of_window sh g;
          window_id = id;
        });
      })
unfolding push rows_of_window
push-rows_of_window sh r g start stop id hn hm =
    let rows = rows_of_window sh g in
    let same : (length rows == r.num_planes) ≡ true = ground (
      arith,
      length-map-range_from (λ plane. map (λ path. g plane path) (range sh.num_spines)) 0
          sh.num_planes,
    ) in
    let all : check_rows r.num_paths rows ≡ ok tt =
      rw hm (check_rows-map g sh.num_spines 0 sh.num_planes) in
    rw (same, all)
