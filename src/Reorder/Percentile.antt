-- ===== src/Reorder/Percentile.antt =====
-- srv6_mrc/reorder.py: `reorder_percentile` is the least distance that enough packets stay within.
use native.Mathlib.Nat.{mul-pos}
use srv6_mrc_emulator.Common.{
  ℕ, ◌+◌, ◌*◌, ◌≤◌, ◌<◌, ◌≡◌, refl, inl, inr, ◌⊎◌, ◌&&◌, [], ◌∷◌, ltb, leb, if◌then◌else◌, arith,
  sum_by, Bool-cases, ok, guard, value_error, ◌>>◌,
}
use srv6_mrc_emulator.EvState.Defs.{Ratio}
use srv6_mrc_emulator.Reorder.Defs.{
  Counts, FlowStats, total, greatest, keys, reach, insert, by_distance, reorder_percentile,
}

-- The arrivals whose distance is at most `d`.
abbrev pub within : ℕ → Counts → ℕ
within d m = sum_by (λ e. if leb e.0 d then e.1 else 0) m

abbrev pub IsAscending : ℕ → Counts → Type 0
IsAscending low [] = Unit {0}
IsAscending low (e ∷ m) = (low ≤ e.0) × IsAscending e.0 m

insert-IsAscending :
    (low : ℕ) (e : ℕ × ℕ) (m : Counts)
    → low ≤ e.0
    → IsAscending low m
    → IsAscending low (insert e m)
insert-IsAscending low e [] h k = (h, tt)
insert-IsAscending low e (x ∷ m) h k = elim (Bool-cases (leb e.0 x.0)) [
  | inl below ↦ rw below (h, (ground arith, k.1))
  | inr above ↦ rw above (k.0, insert-IsAscending x.0 e m (ground arith) k.1)
]

by_distance-IsAscending : (m : Counts) → IsAscending 0 (by_distance m)
unfolding by_distance
by_distance-IsAscending [] = tt
by_distance-IsAscending (e ∷ m) =
    insert-IsAscending 0 e (by_distance m) (omega arith) (by_distance-IsAscending m)

insert-sum : (f : ℕ × ℕ → ℕ) (e : ℕ × ℕ) (m : Counts) → sum_by f (insert e m) ≡ f e + sum_by f m
insert-sum f e [] = refl
insert-sum f e (x ∷ m) = ground (arith, insert-sum f e m)

by_distance-sum : (f : ℕ × ℕ → ℕ) (m : Counts) → sum_by f (by_distance m) ≡ sum_by f m
unfolding by_distance
by_distance-sum f [] = refl
by_distance-sum f (e ∷ m) = omega (arith, insert-sum f e (by_distance m), by_distance-sum f m)

within_low : (low d : ℕ) (m : Counts) → IsAscending low m → d < low → within d m ≡ 0
within_low low d [] h lt = refl
within_low low d (e ∷ m) h lt = ground (arith, within_low e.0 d m h.1 (omega (arith, h.0, lt)))

abbrev IsReached : ℕ → ℕ → ℕ → ℕ → Counts → ℕ → Type 0
IsReached low k scale cum m r = (low ≤ r) × (k ≤ (cum + within r m) * scale)

module _ (pct : Ratio) (sum last : ℕ) where
  reach-least :
      (cum low d' : ℕ) (m : Counts)
      → cum * (100 * pct.den) < sum * pct.num
      → IsAscending low m
      → sum ≡ cum + total m
      → pct.num ≤ 100 * pct.den
      → d' < reach pct sum cum last m
      → (cum + within d' m) * (100 * pct.den) < sum * pct.num
  unfolding reach
  reach-least cum low d' [] h asc e k lt = let same : cum + 0 ≡ cum = omega arith in rw same h
  reach-least cum low d' ((d, n) ∷ m) h (first, asc) e k lt = elim (Bool-cases (leb d d')) [
    | inr before ↦
        let none_yet : within d' m ≡ 0 = within_low d d' m asc (ground arith) in
        let same : cum + (0 + within d' m) ≡ cum = omega (arith, none_yet) in rw (before, same) h
    | inl past ↦ elim (Bool-cases (leb (sum * pct.num) ((cum + n) * (100 * pct.den)))) [
      | inl enough ↦
          let at : reach pct sum cum last ((d, n) ∷ m) ≡ d = rw enough in
          absurd (ground (arith, at, past, lt))
      | inr short ↦
          let at : reach pct sum cum last ((d, n) ∷ m) ≡ reach pct sum (cum + n) last m =
            rw short in
          let more : (cum + n) * (100 * pct.den) < sum * pct.num = ground (arith, short) in
          let ih =
            reach-least (cum + n) d d' m more asc (omega (arith, e)) k (omega (arith, lt, at)) in
          let same : cum + (n + within d' m) ≡ cum + n + within d' m = omega arith in
          rw (past, same) ih
    ]
  ]

Counts-cases : (m : Counts) → (m ≡ []) ⊎ ((x : ℕ × ℕ) × (l : Counts) × (m ≡ x ∷ l))
Counts-cases [] = inl refl
Counts-cases (x ∷ l) = inr (x, l, refl)

-- What the percentile of a histogram that is not empty is.
reorder_percentile-inv :
    (st : FlowStats) (pct : Ratio) {d : ℕ}
    → reorder_percentile st pct ≡ ok d
    → 0 < total st.reorder_hist
    → (last : ℕ) × (d ≡ reach pct (total st.reorder_hist) 0 last (by_distance st.reorder_hist))
      × (0 < pct.num)
      × (pct.num ≤ 100 * pct.den)
unfolding reorder_percentile
reorder_percentile-inv st pct {d} h some_packet = elim (Counts-cases st.reorder_hist) [
  | inl empty ↦ absurd (ground (arith, empty, some_packet))
  | inr (e, m, shape) ↦
      let whole = reach pct (total (e ∷ m)) 0 (greatest (keys (e ∷ m))) (by_distance (e ∷ m)) in
      let h' : (guard (ltb 0 pct.num && leb pct.num (100 * pct.den)) value_error >> ok whole)
          ≡ ok d =
        rw shape at h in
      (
        greatest (keys (e ∷ m)),
        rw shape (ground (arith, h')),
        ground (arith, h'),
        ground (arith, h'),
      )
]

-- Within every distance smaller than the one that `reorder_percentile` returns came fewer than the
-- asked percentage of the flow's packets.
pub reorder_percentile-least :
    (st : FlowStats) (pct : Ratio) {d : ℕ} (d' : ℕ)
    → reorder_percentile st pct ≡ ok d
    → 0 < total st.reorder_hist
    → d' < d
    → within d' st.reorder_hist * (100 * pct.den) < total st.reorder_hist * pct.num
reorder_percentile-least st pct {d} d' h some_packet lt =
    let hist = st.reorder_hist in
    let (last, at, some_pct, most) = reorder_percentile-inv st pct h some_packet in
    let sum = by_distance-sum (λ (e : ℕ × ℕ). e.1) hist in
    let inside = by_distance-sum (λ (e : ℕ × ℕ). if leb e.0 d' then e.1 else 0) hist in
    let start : 0 * (100 * pct.den) < total hist * pct.num =
      omega (arith, mul-pos some_packet some_pct) in
    let short =
      reach-least pct (total hist) last 0 0 d' (by_distance hist) start
        (by_distance-IsAscending hist) (omega (arith, sum)) most (omega (arith, lt, at)) in
    let same : 0 + within d' (by_distance hist) ≡ within d' hist = omega (arith, inside) in
    rw same at short
