-- ===== src/LossWindow/Arrivals.antt =====
-- srv6_mrc/mrc/loss_window.py: the table under interleaved arrivals of many flows, and the report that
-- closes a flow's window.
use srv6_mrc_emulator.Common.{
  ℕ, ◌+◌, ◌%◌, ◌≤◌, ◌≡◌, ◌≢◌, ◌∙◌, ap, Bool, ◌&&◌, List, [], ◌∷◌, ltb, leb, ◌==◌, if◌then◌else◌,
  min, foldl, length, cells, Result, ok, raise,
}
use mathlib.Core.Logic.{ite}
use srv6_mrc_emulator.Common.Dict.{put, find-put_same, find-put_ne}
use srv6_mrc_emulator.Wire.Defs.{PlaneLossRecord, make_loss_report}
use srv6_mrc_emulator.LossWindow.Defs.{
  new_counters, FlowWindow, reset, or_new, expected_local, u32_max, LossWindowTable, window,
  record_packet, record_trimmed, snapshot_and_reset,
}
use srv6_mrc_emulator.LossWindow.Counting.{Arrival, packet, trim, minimum, maximum, largest_jump}
use srv6_mrc_emulator.LossWindow.Report.{active_records, collect-active_records, cells-u8}

-- Packets and trims of a flow, and whether `record` and `record_trimmed` accept them.
abbrev in_range : ℕ → ℕ → Arrival → Bool
in_range n m (packet p q s) = ltb p n && (ltb q m && leb s u32_max)
in_range n m (trim p q) = ltb p n && ltb q m

abbrev keep_on_raise {ℓ} : {A : Type ℓ} → A → Result A → A
keep_on_raise a (ok b) = b
keep_on_raise a (raise e) = a

abbrev fresh : FlowWindow → FlowWindow
fresh w = reset (record w { next_window_id = (w.next_window_id + 1) % 65536 })

abbrev pub IsFresh : FlowWindow → Type 0
IsFresh w = (p q : ℕ) → w.evs p q ≡ new_counters

-- What the report says of an EV, from the numbers of the packets that arrived on it in the window
-- and the number of trimmed ones.
unfoldable pub expected_record : ℕ → ℕ → List ℕ → ℕ → List PlaneLossRecord
expected_record p q seqs trims =
    if length seqs == 0 && trims == 0
    then []
    else record {
      plane_id = p;
      path_id = q;
      seen = min (length seqs) u32_max;
      expected = min (expected_local (minimum seqs) (maximum seqs)) u32_max;
      max_gap = min (largest_jump seqs) u32_max;
      trimmed = min trims u32_max;
    }
      ∷ []

module _ {K : Type 0} (dec : Discrete K) where
  unfoldable pub receive : LossWindowTable K → K × Arrival → LossWindowTable K
  receive t (k, packet p q s) = keep_on_raise t (record_packet dec t k p q s)
  receive t (k, trim p q) = keep_on_raise t (record_trimmed dec t k p q)

  -- The accepted arrivals of one flow, in order.
  unfoldable pub arrivals_for : ℕ → ℕ → K → List (K × Arrival) → List Arrival
  arrivals_for n m k [] = []
  arrivals_for n m k ((j, a) ∷ rest) =
      let more = arrivals_for n m k rest in
      ite (dec j k) (if in_range n m a then a ∷ more else more) more

  unfoldable pub received : LossWindowTable K → List (K × Arrival) → LossWindowTable K
  received t calls = foldl receive t calls

  pub snapshot_and_reset_lem :
      (t : LossWindowTable K) (k : K)
      → t.num_planes ≤ 256
      → t.num_paths ≤ 256
      → let w = window dec t k in
        snapshot_and_reset dec t k ≡ (
          record t { flows = put dec k (fresh w) t.flows },
          make_loss_report (record {
            window_id = w.next_window_id;
            planes = active_records w.evs (cells t.num_planes t.num_paths);
          }),
        )
  unfolding snapshot_and_reset
  snapshot_and_reset_lem t k hn hm = rw (
      collect-active_records (window dec t k).evs (cells t.num_planes t.num_paths)
        (cells-u8 t.num_planes t.num_paths hn hm))

  -- Closing a window starts the flow afresh: its counters are all new, its window id is the next one
  -- modulo 65536, and no other flow's window changes.
  pub snapshot-window :
      (t : LossWindowTable K) (j k : K)
      → t.num_planes ≤ 256
      → t.num_paths ≤ 256
      → k ≢ j
      → let t' = (snapshot_and_reset dec t k).0 in
        (window dec t' k ≡ record {
          next_window_id = ((window dec t k).next_window_id + 1) % 65536;
          evs = λ p q. new_counters;
        })
        × (window dec t' j ≡ window dec t j)
  snapshot-window t j k hn hm ne =
      let e = snapshot_and_reset_lem t k hn hm in
      let w = window dec t k in
      (
        ap (λ r. window dec r.0 k) e ∙ ap or_new (find-put_same dec k (fresh w) t.flows),
        ap (λ r. window dec r.0 j) e ∙ ap or_new (find-put_ne dec j k (fresh w) t.flows ne),
      )
