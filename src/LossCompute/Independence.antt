-- ===== src/LossCompute/Independence.antt =====
-- srv6_mrc/mrc/loss_compute.py: the receiver's `expected` is no denominator, and the counters account
-- for every record.
use mathlib.Core.Path.{fun_ext, ap₂}
use Prim.Native.String.{String}
use srv6_mrc_emulator.Common.{
  ℕ, ◌+◌, ◌<◌, ◌≡◌, refl, ap, false, List, [], ◌∷◌, map, Option, none, some, arith, All, ok, raise,
  length,
}
use srv6_mrc_emulator.Wire.Defs.{PlaneLossRecord}
use srv6_mrc_emulator.LossCompute.Ring.{SentWindow, SentWindowRing, find_closest}
use srv6_mrc_emulator.LossCompute.Fusion.{
  Fusion, Outcome, LossFusionStats, then_run, has_no_data, denominator, fuse_record, fuse_records,
  is_reported, lose_absent, lose_row, lose_rows, absent_check, total_seen, count_report,
  apply_loss_report,
}

-- The records with other values of `expected`.
abbrev pub with_expected : (PlaneLossRecord → ℕ) → List PlaneLossRecord → List PlaneLossRecord
with_expected g = map {A = PlaneLossRecord} (λ r. record r { expected = g r })

abbrev pub HasData : PlaneLossRecord → Type 0
HasData r = 0 < r.seen + r.trimmed

module _ (g : PlaneLossRecord → ℕ) where
  denominator-with_expected :
      (paired : Option SentWindow) (r : PlaneLossRecord)
      → denominator paired (record r { expected = g r }) ≡ denominator paired r
  unfolding denominator
  denominator-with_expected none r = refl
  denominator-with_expected (some w) r = refl

  fuse_record-with_expected :
      (tenant : String) (paired : Option SentWindow) (f : Fusion) (r : PlaneLossRecord)
      → HasData r
      → fuse_record tenant paired f (record r { expected = g r }) ≡ fuse_record tenant paired f r
  unfolding fuse_record
  fuse_record-with_expected tenant paired f r h =
      let here : has_no_data r ≡ false = ground arith in
      let there : has_no_data (record r { expected = g r }) ≡ false = ground arith in
      rw (here, there, denominator-with_expected paired r)

  fuse_records-with_expected :
      (tenant : String) (paired : Option SentWindow) (rs : List PlaneLossRecord) (f : Fusion)
      → All HasData rs
      → fuse_records tenant paired f (with_expected g rs) ≡ fuse_records tenant paired f rs
  unfolding fuse_records
  fuse_records-with_expected tenant paired [] f h = refl
  fuse_records-with_expected tenant paired (r ∷ rs) f h =
      ap₂ then_run (fuse_record-with_expected tenant paired f r h.0)
        (fun_ext (λ f'. fuse_records-with_expected tenant paired rs f' h.1))

  is_reported-with_expected :
      (p q : ℕ) (rs : List PlaneLossRecord)
      → is_reported p q (with_expected g rs) ≡ is_reported p q rs
  unfolding is_reported
  is_reported-with_expected p q [] = refl
  is_reported-with_expected p q (r ∷ rs) = rw (is_reported-with_expected p q rs)

  total_seen-with_expected :
      (rs : List PlaneLossRecord) → total_seen (with_expected g rs) ≡ total_seen rs
  unfolding total_seen
  total_seen-with_expected [] = refl
  total_seen-with_expected (r ∷ rs) =
      ap (λ (n : ℕ). r.seen + r.trimmed + n) (total_seen-with_expected rs)

  lose_row-with_expected :
      (tenant : String) (min_sent : ℕ) (rs : List PlaneLossRecord) (plane path : ℕ) (row : List ℕ)
      (f : Fusion)
      → lose_row tenant min_sent (with_expected g rs) plane path row f
        ≡ lose_row tenant min_sent rs plane path row f
  unfolding lose_row lose_absent
  lose_row-with_expected tenant min_sent rs plane path [] f = refl
  lose_row-with_expected tenant min_sent rs plane path (n ∷ row) f =
      rw (is_reported-with_expected plane path rs) (
        ap (then_run (lose_absent tenant min_sent rs plane path n f))
          (fun_ext (λ f'. lose_row-with_expected tenant min_sent rs plane (path + 1) row f')))

  lose_rows-with_expected :
      (tenant : String) (min_sent : ℕ) (rs : List PlaneLossRecord) (plane : ℕ)
      (rows : List (List ℕ)) (f : Fusion)
      → lose_rows tenant min_sent (with_expected g rs) plane rows f
        ≡ lose_rows tenant min_sent rs plane rows f
  unfolding lose_rows
  lose_rows-with_expected tenant min_sent rs plane [] f = refl
  lose_rows-with_expected tenant min_sent rs plane (row ∷ rows) f =
      ap₂ then_run (lose_row-with_expected tenant min_sent rs plane 0 row f)
        (fun_ext (λ f'. lose_rows-with_expected tenant min_sent rs (plane + 1) rows f'))

  absent_check-with_expected :
      (tenant : String) (min_sent : ℕ) (rs : List PlaneLossRecord) (paired : Option SentWindow)
      (f : Fusion)
      → absent_check tenant min_sent (with_expected g rs) paired f
        ≡ absent_check tenant min_sent rs paired f
  unfolding absent_check
  absent_check-with_expected tenant min_sent rs none f = refl
  absent_check-with_expected tenant min_sent rs (some w) f =
      rw (total_seen-with_expected rs, lose_rows-with_expected tenant min_sent rs 0 w.sent f)

  -- The sequence span that the receiver reports never enters: two reports that differ only in the
  -- `expected` of records with some arrival have the same effect on the table and the counters.
  pub apply_loss_report-with_expected :
      (tenant : String) (id : ℕ) (rs : List PlaneLossRecord) (ring : SentWindowRing)
      (received_at max_skew min_sent : ℕ) (f : Fusion)
      → All HasData rs
      → apply_loss_report tenant
          (record { window_id = id; planes = with_expected g rs })
          ring
          received_at
          max_skew
          min_sent
          f
        ≡ apply_loss_report tenant
            (record { window_id = id; planes = rs })
            ring
            received_at
            max_skew
            min_sent
            f
  unfolding apply_loss_report
  apply_loss_report-with_expected tenant id [] ring at skew min_sent f h = refl
  apply_loss_report-with_expected tenant id (r ∷ rs) ring at skew min_sent f h =
      let paired = find_closest ring at skew in
      ap₂ then_run (fuse_records-with_expected tenant paired (r ∷ rs) (count_report paired f) h)
        (fun_ext (λ f'. absent_check-with_expected tenant min_sent (r ∷ rs) paired f'))

-- Each record is counted once: as without data, as without a denominator, or as an update.
abbrev pub handled : LossFusionStats → ℕ
handled s = s.planes_skipped_no_data + s.fell_back_to_receiver_expected + s.planes_updated

fuse_record-handled :
    (tenant : String) (paired : Option SentWindow) (f : Fusion) (r : PlaneLossRecord)
    → (fuse_record tenant paired f r).1 ≡ ok tt
    → handled (fuse_record tenant paired f r).0.stats ≡ handled f.stats + 1
unfolding fuse_record
fuse_record-handled tenant paired f r h = ground arith

then_run-ok :
    (o : Outcome) (k : Fusion → Outcome)
    → (then_run o k).1 ≡ ok tt
    → (o.1 ≡ ok tt) × ((k o.0).1 ≡ ok tt) × (then_run o k ≡ k o.0)
then_run-ok (f, ok u) k h = (refl, h, refl)
then_run-ok (f, raise e) k h = cc

-- When the loop over the records of a report ends without an error, the three counters together have
-- grown by the number of records.
pub fuse_records-handled :
    (tenant : String) (paired : Option SentWindow) (rs : List PlaneLossRecord) (f : Fusion)
    → (fuse_records tenant paired f rs).1 ≡ ok tt
    → handled (fuse_records tenant paired f rs).0.stats ≡ handled f.stats + length rs
unfolding fuse_records
fuse_records-handled tenant paired [] f h = omega arith
fuse_records-handled tenant paired (r ∷ rs) f h =
    let one = fuse_record tenant paired f r in
    let (first, rest, e) = then_run-ok one (λ f'. fuse_records tenant paired f' rs) h in
    rw e (
      omega (
        arith,
        fuse_record-handled tenant paired f r first,
        fuse_records-handled tenant paired rs one.0 rest,
      ))
