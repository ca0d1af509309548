-- ===== src/LossWindow/Counting.antt =====
-- srv6_mrc/mrc/loss_window.py: what an EV's counters say of the packets that arrived on it.
use srv6_mrc_emulator.Common.{
  ℕ, suc, ◌+◌, ◌-◌, ◌≡◌, refl, ◌∙◌, ap, inl, inr, true, false, List, [], ◌∷◌, ◌++◌, Option, none,
  some, if◌then◌else◌, min, max, arith, Bool-cases, foldl, same_cell, same_cell→eq, length,
  length-append, append_assoc, append-nil,
}
use srv6_mrc_emulator.LossWindow.Defs.{
  EvCounters, new_counters, FlowWindow, count_packet, count_trimmed, update, lowers, raises,
  widen_gap,
}

-- The smallest and the largest number of a list, its last one, and the largest jump forward between
-- neighbours.
unfoldable pub minimum : List ℕ → Option ℕ
minimum [] = none
minimum (x ∷ xs) = elim (minimum xs) [ none ↦ some x | some m ↦ some (min x m) ]

unfoldable pub maximum : List ℕ → Option ℕ
maximum [] = none
maximum (x ∷ xs) = elim (maximum xs) [ none ↦ some x | some m ↦ some (max x m) ]

unfoldable pub last : List ℕ → Option ℕ
last [] = none
last (x ∷ []) = some x
last (x ∷ y ∷ xs) = last (y ∷ xs)

unfoldable pub largest_jump : List ℕ → ℕ
largest_jump [] = 0
largest_jump (x ∷ []) = 0
largest_jump (x ∷ y ∷ xs) = max (y - x) (largest_jump (y ∷ xs))

minimum-snoc :
    (xs : List ℕ) (s : ℕ)
    → minimum (xs ++ s ∷ []) ≡ (if lowers s (minimum xs) then some s else minimum xs)
unfolding minimum
minimum-snoc [] s = refl
minimum-snoc (x ∷ xs) s = ground (arith, minimum-snoc xs s)

maximum-snoc :
    (xs : List ℕ) (s : ℕ)
    → maximum (xs ++ s ∷ []) ≡ (if raises s (maximum xs) then some s else maximum xs)
unfolding maximum
maximum-snoc [] s = refl
maximum-snoc (x ∷ xs) s = ground (arith, maximum-snoc xs s)

last-snoc : (xs : List ℕ) (s : ℕ) → last (xs ++ s ∷ []) ≡ some s
unfolding last
last-snoc [] s = refl
last-snoc (x ∷ []) s = refl
last-snoc (x ∷ y ∷ xs) s = last-snoc (y ∷ xs) s

max-widen_gap : (d s g : ℕ) (l : Option ℕ) → max d (widen_gap s l g) ≡ widen_gap s l (max d g)
max-widen_gap d s g none = refl
max-widen_gap d s g (some l) = ground arith

largest_jump-snoc :
    (xs : List ℕ) (s : ℕ) → largest_jump (xs ++ s ∷ []) ≡ widen_gap s (last xs) (largest_jump xs)
unfolding largest_jump last
largest_jump-snoc [] s = refl
largest_jump-snoc (x ∷ []) s = ground arith
largest_jump-snoc (x ∷ y ∷ xs) s =
    ap (max (y - x)) (largest_jump-snoc (y ∷ xs) s)
    ∙ max-widen_gap (y - x) s (largest_jump (y ∷ xs)) (last (y ∷ xs))

-- What the counters of an EV are after packets with the numbers `seqs`, in the order of arrival, and
-- `trims` trimmed ones.
pub record Describes (c : EvCounters) (seqs : List ℕ) (trims : ℕ) : Type 0 where
  pub seen : c.seen ≡ length seqs
  pub lowest : c.min_seq ≡ minimum seqs
  pub highest : c.max_seq ≡ maximum seqs
  pub gap : c.max_gap ≡ largest_jump seqs
  pub latest : c.last_seq ≡ last seqs
  pub trimmed : c.trimmed ≡ trims

pub new_counters-Describes : Describes new_counters [] 0
unfolding minimum maximum last largest_jump
new_counters-Describes = ground arith

count_packet-Describes :
    (c : EvCounters) (seqs : List ℕ) (trims s : ℕ)
    → Describes c seqs trims
    → Describes (count_packet s c) (seqs ++ s ∷ []) trims
unfolding count_packet
count_packet-Describes c seqs trims s d = ground (
  arith,
  length-append seqs (s ∷ []),
  minimum-snoc seqs s,
  maximum-snoc seqs s,
  last-snoc seqs s,
  largest_jump-snoc seqs s,
)

-- What arrives for one flow.
pub data Arrival : Type 0 where
  packet : ℕ → ℕ → ℕ → Arrival
  trim : ℕ → ℕ → Arrival

-- `record` and `record_trimmed` past their checks, on the flow's window.
unfoldable pub arrive : FlowWindow → Arrival → FlowWindow
arrive w (packet p q s) = update w p q (count_packet s)
arrive w (trim p q) = update w p q count_trimmed

-- The packets that arrived on an EV, and how many trimmed ones did.
unfoldable pub seqs_at : ℕ → ℕ → List Arrival → List ℕ
seqs_at p q [] = []
seqs_at p q (packet i j s ∷ rest) =
    if same_cell i j p q then s ∷ seqs_at p q rest else seqs_at p q rest
seqs_at p q (trim i j ∷ rest) = seqs_at p q rest

unfoldable pub trims_at : ℕ → ℕ → List Arrival → ℕ
trims_at p q [] = 0
trims_at p q (packet i j s ∷ rest) = trims_at p q rest
trims_at p q (trim i j ∷ rest) =
    if same_cell i j p q then suc (trims_at p q rest) else trims_at p q rest

update_here :
    (w : FlowWindow) (i j p q : ℕ) (f : EvCounters → EvCounters)
    → same_cell i j p q ≡ true
    → (update w i j f).evs p q ≡ f (w.evs p q)
update_here w i j p q f e = let (ei, ej) = same_cell→eq i j p q e in rw e (ap f (rw (ei, ej)))

update_elsewhere :
    (w : FlowWindow) (i j p q : ℕ) (f : EvCounters → EvCounters)
    → same_cell i j p q ≡ false
    → (update w i j f).evs p q ≡ w.evs p q
update_elsewhere w i j p q f e = rw e

count_trimmed-Describes :
    (c : EvCounters) (seqs : List ℕ) (trims : ℕ)
    → Describes c seqs trims
    → Describes (count_trimmed c) seqs (trims + 1)
unfolding count_trimmed
count_trimmed-Describes c seqs trims d = ground arith

pub arrive-Describes :
    (rest : List Arrival) (w : FlowWindow) (p q : ℕ) (seqs : List ℕ) (trims : ℕ)
    → Describes (w.evs p q) seqs trims
    → Describes
        ((foldl arrive w rest).evs p q)
        (seqs ++ seqs_at p q rest)
        (trims + trims_at p q rest)
unfolding arrive seqs_at trims_at
arrive-Describes [] w p q seqs trims d =
    let more : seqs ++ [] ≡ seqs = append-nil seqs in
    let same : trims + 0 ≡ trims = omega arith in rw (more, same) d
arrive-Describes (packet i j s ∷ rest) w p q seqs trims d = elim (Bool-cases (same_cell i j p q)) [
  | inl e ↦
      let here : Describes ((update w i j (count_packet s)).evs p q) (seqs ++ s ∷ []) trims =
        rw (update_here w i j p q (count_packet s) e)
          (count_packet-Describes (w.evs p q) seqs trims s d) in
      rw (e, ← append_assoc seqs (s ∷ []) (seqs_at p q rest))
        (arrive-Describes rest (update w i j (count_packet s)) p q (seqs ++ s ∷ []) trims here)
  | inr e ↦
      let kept : Describes ((update w i j (count_packet s)).evs p q) seqs trims =
        rw (update_elsewhere w i j p q (count_packet s) e) d in
      rw e (arrive-Describes rest (update w i j (count_packet s)) p q seqs trims kept)
]
arrive-Describes (trim i j ∷ rest) w p q seqs trims d = elim (Bool-cases (same_cell i j p q)) [
  | inl e ↦
      let here : Describes ((update w i j count_trimmed).evs p q) seqs (trims + 1) =
        rw (update_here w i j p q count_trimmed e)
          (count_trimmed-Describes (w.evs p q) seqs trims d) in
      let moved : trims + suc (trims_at p q rest) ≡ trims + 1 + trims_at p q rest = omega arith in
      rw (e, moved) (arrive-Describes rest (update w i j count_trimmed) p q seqs (trims + 1) here)
  | inr e ↦
      let kept : Describes ((update w i j count_trimmed).evs p q) seqs trims =
        rw (update_elsewhere w i j p q count_trimmed e) d in
      rw e (arrive-Describes rest (update w i j count_trimmed) p q seqs trims kept)
]
