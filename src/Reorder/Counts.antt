-- ===== src/Reorder/Counts.antt =====
-- srv6_mrc/reorder.py: every arrival is counted once, and the span and the loss follow from them.
use native.Mathlib.Decide.{ℕ_discrete}
use srv6_mrc_emulator.Common.{
  ℕ, suc, ◌+◌, ◌≤◌, ◌<◌, ◌≡◌, ◌∙◌, ap, refl, sym, inl, inr, true, false, List, [], ◌∷◌, Option, ltb,
  if◌then◌else◌, arith, length, Bool-cases,
}
use srv6_mrc_emulator.Common.Dict.{find, put}
use srv6_mrc_emulator.Reorder.Defs.{
  Counts, bump, or_zero, FlowStats, new_stats, window_cap, contains, remember, distance, observe,
  total,
}

-- An arrival: its number, and its plane if the payload told it.
abbrev pub Arrival : Type 0
Arrival = ℕ × Option ℕ

unfoldable pub observed : FlowStats → List Arrival → FlowStats
observed st [] = st
observed st ((seq, plane) ∷ as_of) = observed (observe st seq plane) as_of

put-total :
    (key c : ℕ) (m : Counts)
    → total (put ℕ_discrete key (or_zero (find ℕ_discrete key m) + c) m) ≡ total m + c
unfolding find put
put-total key c [] = omega arith
put-total key c ((j, v) ∷ m) = ground (arith, put-total key c m)

pub bump-total : (key : ℕ) (m : Counts) → total (bump key m) ≡ total m + 1
unfolding bump
bump-total key m = put-total key 1 m

observe-received :
    (st : FlowStats) (seq : ℕ) (plane : Option ℕ)
    → total st.reorder_hist ≡ st.received
    → let st' = observe st seq plane in
      (st'.received + st'.duplicates ≡ st.received + st.duplicates + 1)
      × (total st'.reorder_hist ≡ st'.received)
unfolding observe
observe-received st seq plane h = elim (Bool-cases (contains seq st.window)) [
  | inl again ↦ rw again (omega arith, h)
  | inr new ↦
      rw new
        (omega arith, omega (arith, bump-total (distance seq st.last_seq_seen) st.reorder_hist, h))
]

observed_from :
    (as_of : List Arrival) (st : FlowStats)
    → total st.reorder_hist ≡ st.received
    → let st' = observed st as_of in
      (st'.received + st'.duplicates ≡ st.received + st.duplicates + length as_of)
      × (total st'.reorder_hist ≡ st'.received)
unfolding observed
observed_from [] st h = (omega arith, h)
observed_from ((seq, plane) ∷ as_of) st h =
    let (one, kept) = observe-received st seq plane h in
    let (all, last) = observed_from as_of (observe st seq plane) kept in
    (omega (arith, one, all), last)

-- Every arrival is counted as received or as a duplicate, and every received one is in exactly one bin
-- of the histogram.
pub observed-received :
    (as_of : List Arrival)
    → let st = observed new_stats as_of in
      (st.received + st.duplicates ≡ length as_of) × (total st.reorder_hist ≡ st.received)
observed-received as_of =
    let (all, bins) = observed_from as_of new_stats refl in (omega (arith, all), bins)

-- How many different numbers a list has.
abbrev pub distinct : List ℕ → ℕ
distinct [] = 0
distinct (x ∷ xs) = if contains x xs then distinct xs else suc (distinct xs)

-- The numbers that arrived, the latest first.
abbrev pub arrived : List ℕ → List Arrival → List ℕ
arrived seqs [] = seqs
arrived seqs ((seq, plane) ∷ as_of) = arrived (seq ∷ seqs) as_of

length-arrived :
    (seqs : List ℕ) (as_of : List Arrival)
    → length (arrived seqs as_of) ≡ length seqs + length as_of
length-arrived seqs [] = omega arith
length-arrived seqs ((s, p) ∷ as_of) = omega (arith, length-arrived (s ∷ seqs) as_of)

-- The window holds what arrived, each number once.
record IsWindow (st : FlowStats) (seqs : List ℕ) : Type 0 where
  same : (s : ℕ) → contains s st.window ≡ contains s seqs
  size : length st.window ≡ distinct seqs
  count : st.received ≡ distinct seqs

distinct-le : (xs : List ℕ) → distinct xs ≤ length xs
distinct-le [] = omega arith
distinct-le (x ∷ xs) = ground (arith, distinct-le xs)

observe-IsWindow :
    (st : FlowStats) (seq : ℕ) (plane : Option ℕ) (seqs : List ℕ)
    → IsWindow st seqs
    → length seqs < window_cap
    → IsWindow (observe st seq plane) (seq ∷ seqs)
unfolding observe
observe-IsWindow st seq plane seqs h room = elim (Bool-cases (contains seq st.window)) [
  | inl again ↦
      let seen : contains seq seqs ≡ true = sym (h.same seq) ∙ again in
      rw again (record {
        same = λ s. ground (arith, h.same s, seen);
        size = rw seen h.size;
        count = rw seen h.count;
      })
  | inr new ↦
      let unseen : contains seq seqs ≡ false = sym (h.same seq) ∙ new in
      let fits : ltb window_cap (length (seq ∷ st.window)) ≡ false =
        ground (arith, h.size, distinct-le seqs, room) in
      let kept : remember seq st.window ≡ seq ∷ st.window = unfold remember in rw fits in
      rw new (record {
        same = λ s. rw kept (ground (arith, h.same s));
        size = rw (kept, unseen) (ap suc h.size);
        count = rw unseen (omega (arith, h.count));
      })
]

observed-IsWindow :
    (as_of : List Arrival) (st : FlowStats) (seqs : List ℕ)
    → IsWindow st seqs
    → length seqs + length as_of ≤ window_cap
    → IsWindow (observed st as_of) (arrived seqs as_of)
unfolding observed
observed-IsWindow [] st seqs h room = h
observed-IsWindow ((seq, plane) ∷ as_of) st seqs h room =
    observed-IsWindow as_of (observe st seq plane) (seq ∷ seqs)
      (observe-IsWindow st seq plane seqs h (omega (arith, room))) (omega (arith, room))

-- As long as no more packets arrived than the window holds, a flow's `received` is the number of
-- different sequence numbers, and `duplicates` is the number of the other arrivals.
pub observed-duplicates :
    (as_of : List Arrival)
    → length as_of ≤ 4096
    → let st = observed new_stats as_of in
      (st.received ≡ distinct (arrived [] as_of))
      × (st.duplicates + distinct (arrived [] as_of) ≡ length as_of)
observed-duplicates as_of h =
    let w =
      observed-IsWindow as_of new_stats [] (record { same = λ s. refl; size = refl; count = refl })
        (omega (arith, h)) in
    (w.count, omega (arith, w.count, (observed-received as_of).0))
