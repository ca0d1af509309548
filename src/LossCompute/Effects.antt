-- ===== src/LossCompute/Effects.antt =====
-- srv6_mrc/mrc/loss_compute.py: what a loss report does to the EV table.
use Prim.Native.String.{String}
use srv6_mrc_emulator.Common.{
  All-append, ℕ, ◌+◌, ◌<◌, ◌≡◌, ◌∙◌, refl, sym, ap, inl, inr, List, [], ◌∷◌, ◌++◌, map, foldl_inv,
  Option, none, some, ltb, ◌==◌, arith, All, Bool-cases, Result, ok, raise,
}
use srv6_mrc_emulator.Wire.Defs.{PlaneLossRecord, LossReport}
use srv6_mrc_emulator.EvState.Defs.{EvState, is_bad, TenantEvs, Setup}
use srv6_mrc_emulator.EvState.Table.{EvStateTable, state, record_loss_window, find_tenant}
use srv6_mrc_emulator.EvState.Run.{Signal, loss_signal, Inv, run, apply_signal, apply_signal-Inv}
use srv6_mrc_emulator.EvState.Tenants.{call, calls, keep_on_raise, signals_for, calls-run}
use srv6_mrc_emulator.LossCompute.Ring.{SentWindow, SentWindowRing, find_closest}
use srv6_mrc_emulator.LossCompute.Fusion.{
  Fusion, Outcome, LossFusionStats, then_run, feed, count_update, count_absent, has_no_data,
  denominator, fuse_record, fuse_records, is_reported, lose_unless_bad, lose_absent, lose_row,
  lose_rows, absent_check, low_coverage, count_report, fuse_nonempty, apply_loss_report,
}

-- A loss report on an EV that the sender sent packets on.
abbrev pub IsLoss : Signal → Type 0
IsLoss (loss_signal p q seen sent) = 0 < sent
IsLoss _ = ⊥

abbrev pub tagged : String → List Signal → List (String × Signal)
tagged tenant sigs = map (λ sig. (tenant, sig)) sigs

-- One table comes from another by loss signals of a tenant.
pub record IsFed (tenant : String) (t t' : EvStateTable) : Type 0 where
  pub signals : List Signal
  pub are_losses : All IsLoss signals
  pub fed : t' ≡ calls t (tagged tenant signals)

IsFed-refl : (tenant : String) (t : EvStateTable) → IsFed tenant t t
IsFed-refl tenant t = record { signals = []; are_losses = tt; fed = unfold calls in refl }

calls-append :
    (tenant : String) (xs ys : List Signal) (t : EvStateTable)
    → calls t (tagged tenant (xs ++ ys)) ≡ calls (calls t (tagged tenant xs)) (tagged tenant ys)
unfolding calls
calls-append tenant [] ys t = refl
calls-append tenant (x ∷ xs) ys t = calls-append tenant xs ys (call t (tenant, x))

IsFed-trans :
    (tenant : String) {t u v : EvStateTable}
    → IsFed tenant t u
    → IsFed tenant u v
    → IsFed tenant t v
IsFed-trans tenant {t} a b = record {
  signals = a.signals ++ b.signals;
  are_losses = All-append IsLoss a.signals b.signals a.are_losses b.are_losses;
  fed =
      b.fed
      ∙ ap (λ x. calls x (tagged tenant b.signals)) a.fed
      ∙ sym (calls-append tenant a.signals b.signals t);
}

feed-IsFed :
    (tenant : String) (f : Fusion) (count : LossFusionStats → LossFusionStats) (p q seen sent : ℕ)
    → 0 < sent
    → IsFed tenant f.table (feed f count (record_loss_window f.table tenant p q seen sent)).0.table
feed-IsFed tenant f count p q seen sent h = record {
  signals = loss_signal p q seen sent ∷ [];
  are_losses = (h, tt);
  fed = unfold calls call in result (record_loss_window f.table tenant p q seen sent);
}
  where
    result : (r : Result EvStateTable) → (feed f count r).0.table ≡ keep_on_raise f.table r
    result (ok t) = refl
    result (raise e) = refl

then_run-IsFed :
    (tenant : String) (t : EvStateTable) (o : Outcome) (k : Fusion → Outcome)
    → IsFed tenant t o.0.table
    → ((f : Fusion) → IsFed tenant f.table (k f).0.table)
    → IsFed tenant t (then_run o k).0.table
then_run-IsFed tenant t (f, ok _) k h g = IsFed-trans tenant h (g f)
then_run-IsFed tenant t (f, raise e) k h g = h

fuse_record-IsFed :
    (tenant : String) (paired : Option SentWindow) (f : Fusion) (r : PlaneLossRecord)
    → IsFed tenant f.table (fuse_record tenant paired f r).0.table
unfolding fuse_record
fuse_record-IsFed tenant paired f r = elim (Bool-cases (has_no_data r)) [
  | inl e ↦ rw e (IsFed-refl tenant f.table)
  | inr e ↦ elim (Bool-cases (denominator paired r == 0)) [
    | inl z ↦ rw (e, z) (IsFed-refl tenant f.table)
    | inr nz ↦
        rw (e, nz)
          (feed-IsFed tenant f count_update r.plane_id r.path_id (r.seen + r.trimmed)
            (denominator paired r) (ground arith))
  ]
]

fuse_records-IsFed :
    (tenant : String) (paired : Option SentWindow) (rs : List PlaneLossRecord) (f : Fusion)
    → IsFed tenant f.table (fuse_records tenant paired f rs).0.table
unfolding fuse_records
fuse_records-IsFed tenant paired [] f = IsFed-refl tenant f.table
fuse_records-IsFed tenant paired (r ∷ rs) f =
    then_run-IsFed tenant f.table (fuse_record tenant paired f r)
      (λ f'. fuse_records tenant paired f' rs) (fuse_record-IsFed tenant paired f r)
      (λ f'. fuse_records-IsFed tenant paired rs f')

module _ (tenant : String) (min_sent : ℕ) (planes : List PlaneLossRecord)
    (positive : 0 < min_sent) where
  lose_unless_bad-IsFed :
      (plane path sent : ℕ) (f : Fusion) (r : Result EvState)
      → 0 < sent
      → IsFed tenant f.table (lose_unless_bad tenant plane path sent f r).0.table
  lose_unless_bad-IsFed plane path sent f (raise e) h = IsFed-refl tenant f.table
  lose_unless_bad-IsFed plane path sent f (ok st) h = elim (Bool-cases (is_bad st)) [
    | inl e ↦ rw e (IsFed-refl tenant f.table)
    | inr e ↦ rw e (feed-IsFed tenant f count_absent plane path 0 sent h)
  ]

  lose_absent-IsFed :
      (plane path sent : ℕ) (f : Fusion)
      → IsFed tenant f.table (lose_absent tenant min_sent planes plane path sent f).0.table
  unfolding lose_absent
  lose_absent-IsFed plane path sent f = elim (Bool-cases (ltb sent min_sent)) [
    | inl e ↦ rw e (IsFed-refl tenant f.table)
    | inr e ↦ elim (Bool-cases (is_reported plane path planes)) [
      | inl s ↦ rw (e, s) (IsFed-refl tenant f.table)
      | inr ns ↦
          rw (e, ns)
            (lose_unless_bad-IsFed plane path sent f (state f.table tenant plane path)
              (ground arith))
    ]
  ]

  lose_row-IsFed :
      (plane path : ℕ) (row : List ℕ) (f : Fusion)
      → IsFed tenant f.table (lose_row tenant min_sent planes plane path row f).0.table
  unfolding lose_row
  lose_row-IsFed plane path [] f = IsFed-refl tenant f.table
  lose_row-IsFed plane path (n ∷ row) f =
      then_run-IsFed tenant f.table (lose_absent tenant min_sent planes plane path n f)
        (λ f'. lose_row tenant min_sent planes plane (path + 1) row f')
        (lose_absent-IsFed plane path n f) (λ f'. lose_row-IsFed plane (path + 1) row f')

  lose_rows-IsFed :
      (plane : ℕ) (rows : List (List ℕ)) (f : Fusion)
      → IsFed tenant f.table (lose_rows tenant min_sent planes plane rows f).0.table
  unfolding lose_rows
  lose_rows-IsFed plane [] f = IsFed-refl tenant f.table
  lose_rows-IsFed plane (row ∷ rows) f =
      then_run-IsFed tenant f.table (lose_row tenant min_sent planes plane 0 row f)
        (λ f'. lose_rows tenant min_sent planes (plane + 1) rows f') (lose_row-IsFed plane 0 row f)
        (λ f'. lose_rows-IsFed (plane + 1) rows f')

  absent_check-IsFed :
      (paired : Option SentWindow) (f : Fusion)
      → IsFed tenant f.table (absent_check tenant min_sent planes paired f).0.table
  unfolding absent_check
  absent_check-IsFed none f = IsFed-refl tenant f.table
  absent_check-IsFed (some w) f = elim (Bool-cases (low_coverage planes w)) [
    | inl e ↦ rw e (IsFed-refl tenant f.table)
    | inr e ↦ rw e (lose_rows-IsFed 0 w.sent f)
  ]

  fuse_nonempty-IsFed :
      (paired : Option SentWindow) (f : Fusion)
      → IsFed tenant f.table (fuse_nonempty tenant min_sent planes paired f).0.table
  fuse_nonempty-IsFed paired f =
      then_run-IsFed tenant f.table (fuse_records tenant paired (count_report paired f) planes)
        (λ f'. absent_check tenant min_sent planes paired f') (counted paired)
        (absent_check-IsFed paired)
    where
      counted :
          (o : Option SentWindow)
          → IsFed tenant f.table (fuse_records tenant o (count_report o f) planes).0.table
      counted none = fuse_records-IsFed tenant none planes (count_report none f)
      counted (some w) = fuse_records-IsFed tenant (some w) planes (count_report (some w) f)

pub apply_loss_report-IsFed :
    (tenant : String) (report : LossReport) (ring : SentWindowRing)
    (received_at max_skew min_sent : ℕ) (f : Fusion)
    → 0 < min_sent
    → IsFed tenant f.table
        (apply_loss_report tenant report ring received_at max_skew min_sent f).0.table
unfolding apply_loss_report
apply_loss_report-IsFed tenant report ring at skew min_sent f positive = by_planes report.planes
  where
    by_planes :
        (planes : List PlaneLossRecord)
        → IsFed tenant f.table
            (elim planes as (λ _. Outcome) [
              | [] ↦ (f, ok tt)
              | r ∷ rs ↦ fuse_nonempty tenant min_sent (r ∷ rs) (find_closest ring at skew) f
            ]).0.table
    by_planes [] = IsFed-refl tenant f.table
    by_planes (r ∷ rs) =
        fuse_nonempty-IsFed tenant min_sent (r ∷ rs) positive (find_closest ring at skew) f

run-Inv_from : (su : Setup) (sigs : List Signal) (s : TenantEvs) → Inv su s → Inv su (run su s sigs)
unfolding run
run-Inv_from su sigs s h = foldl_inv (Inv su) (apply_signal su) (apply_signal-Inv su) sigs s h

-- No loss report breaks the table: a tenant whose EVs satisfy the floor, whose weights match the
-- states and whose records are consistent still has all three after any report for any tenant.
pub apply_loss_report-Inv :
    (tenant k : String) (report : LossReport) (ring : SentWindowRing)
    (received_at max_skew min_sent : ℕ) (f : Fusion) (s : TenantEvs)
    → 0 < min_sent
    → find_tenant k f.table.tenants ≡ some s
    → Inv f.table.setup s
    → (s' : TenantEvs) × (find_tenant k
          (apply_loss_report tenant report ring received_at max_skew min_sent f).0.table.tenants
        ≡ some s')
      × Inv f.table.setup s'
apply_loss_report-Inv tenant k report ring at skew min_sent f s positive found inv =
    let fed = apply_loss_report-IsFed tenant report ring at skew min_sent f positive in
    let sigs = signals_for k (tagged tenant fed.signals) in
    (
      run f.table.setup s sigs,
      ap (λ t. find_tenant k t.tenants) fed.fed
          ∙ calls-run (tagged tenant fed.signals) f.table k s found,
      run-Inv_from f.table.setup sigs s inv,
    )
