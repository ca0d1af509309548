-- ===== src/LossCompute/Ring.antt =====
-- srv6_mrc/mrc/loss_compute.py: the ring of recent emit windows and the pairing of a report with one.
use srv6_mrc_emulator.Common.{
  ℕ, ◌+◌, ◌-◌, ◌/◌, List, [], ◌∷◌, Option, none, some, ltb, ◌==◌, if◌then◌else◌, length,
  push_bounded, value_error, Result, ok, ◌>>◌, guard,
}

pub record SentWindow : Type 0 where
  pub start_ns : ℕ
  pub end_ns : ℕ
  pub sent : List (List ℕ)
  pub window_id : ℕ

unfoldable pub midpoint_ns : SentWindow → ℕ
midpoint_ns w = (w.start_ns + w.end_ns) / 2

pub record SentWindowRing : Type 0 where
  pub num_planes : ℕ
  pub num_paths : ℕ
  pub capacity : ℕ
  pub ring : List SentWindow

unfoldable pub new_ring : ℕ → ℕ → ℕ → Result SentWindowRing
new_ring num_planes num_paths capacity = do
  guard (ltb 0 num_planes) value_error
  guard (ltb 0 num_paths) value_error
  guard (ltb 0 capacity) value_error
  ok (record { num_planes = num_planes; num_paths = num_paths; capacity = capacity; ring = [] })

unfoldable pub check_rows : ℕ → List (List ℕ) → Result (Unit {0})
check_rows num_paths [] = ok tt
check_rows num_paths (row ∷ rows) = do
  guard (length row == num_paths) value_error
  check_rows num_paths rows

unfoldable pub push : SentWindowRing → SentWindow → Result SentWindowRing
push r w = do
  guard (length w.sent == r.num_planes) value_error
  check_rows r.num_paths w.sent
  ok (record r { ring = push_bounded r.capacity r.ring w })

-- abs(a - b)
abbrev pub abs_diff : ℕ → ℕ → ℕ
abs_diff a b = (a - b) + (b - a)

abbrev pub skew : ℕ → SentWindow → ℕ
skew target_ns w = abs_diff (midpoint_ns w) target_ns

-- The loop of `find_closest`: the best window so far, and its skew.
unfoldable pub closest_from : ℕ → Option SentWindow → ℕ → List SentWindow → Option SentWindow
closest_from target_ns best best_skew [] = best
closest_from target_ns best best_skew (w ∷ ws) =
    let nearer = ltb (skew target_ns w) best_skew in
    closest_from target_ns (if nearer then some w else best)
      (if nearer then skew target_ns w else best_skew) ws

unfoldable pub find_closest : SentWindowRing → ℕ → ℕ → Option SentWindow
find_closest r target_ns max_skew_ns = closest_from target_ns none (max_skew_ns + 1) r.ring
