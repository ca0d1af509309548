-- ===== src/LossWindow/Report.antt =====
-- srv6_mrc/mrc/loss_window.py: the report that closes a window tells what arrived in it.
use srv6_mrc_emulator.Common.{
  ℕ, ◌≤◌, ◌≡◌, refl, ◌∙◌, inl, inr, false, List, [], ◌∷◌, if◌then◌else◌, arith, Bool-cases,
  same_cell, same_cell→eq, All, IsCell, All-cells, length, Grid, cells, visits, ok,
}
use srv6_mrc_emulator.Wire.Defs.{PlaneLossRecord, make_plane_loss_record}
use srv6_mrc_emulator.Wire.Reports.{IsRecord}
use srv6_mrc_emulator.LossWindow.Defs.{EvCounters, is_active, loss_record, collect}

unfoldable pub active_records : Grid EvCounters → List (ℕ × ℕ) → List PlaneLossRecord
active_records evs [] = []
active_records evs (c ∷ cs) =
    if is_active (evs c.0 c.1)
    then loss_record c (evs c.0 c.1) ∷ active_records evs cs
    else active_records evs cs

pub loss_record-IsRecord :
    (c : ℕ × ℕ) (k : EvCounters) → IsCell 256 256 c → IsRecord (loss_record c k)
unfolding loss_record
loss_record-IsRecord (p, q) k h = ground arith

make-loss_record :
    (c : ℕ × ℕ) (k : EvCounters)
    → IsCell 256 256 c
    → make_plane_loss_record (loss_record c k) ≡ ok (loss_record c k)
unfolding make_plane_loss_record
make-loss_record c k h = let r = loss_record-IsRecord c k h in ground arith

pub collect-active_records :
    (evs : Grid EvCounters) (cs : List (ℕ × ℕ))
    → All (IsCell 256 256) cs
    → collect evs cs ≡ ok (active_records evs cs)
unfolding collect active_records
collect-active_records evs [] h = refl
collect-active_records evs ((p, q) ∷ cs) h =
    ground (arith, make-loss_record (p, q) (evs p q) h.0, collect-active_records evs cs h.1)

-- The records of a report on one EV.
unfoldable pub records_at : ℕ → ℕ → List PlaneLossRecord → List PlaneLossRecord
records_at p q [] = []
records_at p q (r ∷ rs) =
    if same_cell p q r.plane_id r.path_id then r ∷ records_at p q rs else records_at p q rs

records_at-outside :
    (evs : Grid EvCounters) (p q : ℕ) (cs : List (ℕ × ℕ))
    → visits p q cs ≡ 0
    → records_at p q (active_records evs cs) ≡ []
unfolding active_records records_at loss_record
records_at-outside evs p q [] h = refl
records_at-outside evs p q ((i, j) ∷ cs) h = ground (arith, records_at-outside evs p q cs)

records_at-here :
    (evs : Grid EvCounters) (p q : ℕ) (cs : List (ℕ × ℕ))
    → visits p q cs ≡ 0
    → records_at p q (active_records evs ((p, q) ∷ cs))
      ≡ (if is_active (evs p q) then loss_record (p, q) (evs p q) ∷ [] else [])
unfolding active_records records_at loss_record
records_at-here evs p q cs h = ground (arith, records_at-outside evs p q cs h)

records_at-skip :
    (evs : Grid EvCounters) (p q i j : ℕ) (cs : List (ℕ × ℕ))
    → same_cell p q i j ≡ false
    → records_at p q (active_records evs ((i, j) ∷ cs)) ≡ records_at p q (active_records evs cs)
unfolding active_records records_at loss_record
records_at-skip evs p q i j cs h = ground arith

pub records_at-once :
    (evs : Grid EvCounters) (p q : ℕ) (cs : List (ℕ × ℕ))
    → visits p q cs ≡ 1
    → records_at p q (active_records evs cs)
      ≡ (if is_active (evs p q) then loss_record (p, q) (evs p q) ∷ [] else [])
records_at-once evs p q [] h = absurd (omega arith)
records_at-once evs p q ((i, j) ∷ cs) h = elim (Bool-cases (same_cell p q i j)) [
  | inl e ↦
      let (ei, ej) = same_cell→eq p q i j e in
      let rest : visits p q cs ≡ 0 = ground arith in
      rw (← ei, ← ej) (records_at-here evs p q cs rest)
  | inr e ↦ records_at-skip evs p q i j cs e ∙ records_at-once evs p q cs (ground arith)
]

pub active_records-IsRecord :
    (evs : Grid EvCounters) (cs : List (ℕ × ℕ))
    → All (IsCell 256 256) cs
    → All IsRecord (active_records evs cs)
unfolding active_records
active_records-IsRecord evs [] h = tt
active_records-IsRecord evs (c ∷ cs) h = elim (Bool-cases (is_active (evs c.0 c.1))) [
  | inl e ↦ rw e (loss_record-IsRecord c (evs c.0 c.1) h.0, active_records-IsRecord evs cs h.1)
  | inr e ↦ rw e (active_records-IsRecord evs cs h.1)
]

pub length-active_records :
    (evs : Grid EvCounters) (cs : List (ℕ × ℕ)) → length (active_records evs cs) ≤ length cs
unfolding active_records
length-active_records evs [] = omega arith
length-active_records evs (c ∷ cs) = ground (arith, length-active_records evs cs)

IsCell-weaken :
    (n m : ℕ) (cs : List (ℕ × ℕ))
    → n ≤ 256
    → m ≤ 256
    → All (IsCell n m) cs
    → All (IsCell 256 256) cs
IsCell-weaken n m [] hn hm h = tt
IsCell-weaken n m (c ∷ cs) hn hm h =
    ((omega (arith, h.0.0), omega (arith, h.0.1)), IsCell-weaken n m cs hn hm h.1)

pub cells-u8 : (n m : ℕ) → n ≤ 256 → m ≤ 256 → All (IsCell 256 256) (cells n m)
cells-u8 n m hn hm = IsCell-weaken n m (cells n m) hn hm (All-cells n m)
