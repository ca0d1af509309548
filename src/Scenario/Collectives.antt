-- ===== src/Scenario/Collectives.antt =====
-- srv6_mrc/mrc/scenario.py: the generated pair sets, as traffic patterns.
use Prim.Native.String.{String}
use native.Mathlib.Nat.{mod_self, mod-eq_of_lt}
use srv6_mrc_emulator.Common.{
  ℕ, zero, suc, ◌+◌, ◌-◌, ◌%◌, ◌≡◌, ◌≤◌, ◌<◌, refl, ap, ◌∙◌, not, ◌&&◌, List, [], ◌∷◌, map,
  Bool-cases, inl, inr, arith, ltb, ltb→lt, leb, ◌==◌, ==_iff, if◌then◌else◌, same_cell, cells,
  visits, visits-cells, visits-cells_outside, range_from, count_if,
}
use srv6_mrc_emulator.Scenario.Pairs.{FlowPair, pair, differing, all_to_all_pairs, ring_pairs}

-- How often a set has a pair of hosts; how many of its pairs start or end at a host.
abbrev pub between : ℕ → ℕ → List FlowPair → ℕ
between p q ps = count_if (λ x. same_cell p q x.src x.dst) ps

abbrev pub sent_by : ℕ → List FlowPair → ℕ
sent_by p ps = count_if (λ x. x.src == p) ps

abbrev pub received_by : ℕ → List FlowPair → ℕ
received_by q ps = count_if (λ x. x.dst == q) ps

visits-differing :
    (p q : ℕ) (cs : List (ℕ × ℕ))
    → visits p q (differing cs) ≡ (if p == q then 0 else visits p q cs)
unfolding differing
visits-differing p q [] = ground arith
visits-differing p q ((i, j) ∷ cs) = ground (arith, visits-differing p q cs)

between-map :
    (p q : ℕ) (t : String) (cs : List (ℕ × ℕ)) → between p q (map (pair t) cs) ≡ visits p q cs
between-map p q t [] = refl
between-map p q t ((i, j) ∷ cs) = ground (arith, between-map p q t cs)

visits-within : (p q n : ℕ) → visits p q (cells n n) ≡ (if ltb p n && ltb q n then 1 else 0)
visits-within p q n = elim (Bool-cases (ltb p n)) [
  | inl a ↦ elim (Bool-cases (ltb q n)) [
    | inl b ↦ visits-cells p q n n (ltb→lt p n a) (ltb→lt q n b) ∙ rw (a, b) refl
    | inr b ↦ visits-cells_outside p q n n (inr (ground (arith, b))) ∙ rw (a, b) refl
  ]
  | inr a ↦ visits-cells_outside p q n n (inl (ground (arith, a))) ∙ rw a refl
]

unless_same :
    (p q n : ℕ) {v : ℕ}
    → v ≡ (if ltb p n && ltb q n then 1 else 0)
    → (if p == q then 0 else v) ≡ (if ltb p n && (ltb q n && not (p == q)) then 1 else 0)
unless_same p q n h = ground (arith, h)

-- In the all-to-all set every host sends to every other host once, and there are no other pairs.
pub all_to_all_pairs-between :
    (n : ℕ) (tenant : String) (p q : ℕ)
    → between p q (all_to_all_pairs n tenant)
      ≡ (if ltb p n && (ltb q n && not (p == q)) then 1 else 0)
unfolding all_to_all_pairs
all_to_all_pairs-between n tenant p q =
    between-map p q tenant (differing (cells n n))
    ∙ visits-differing p q (cells n n)
    ∙ unless_same p q n (visits-within p q n)

-- The one host that sends to `j`.
abbrev before : ℕ → ℕ → ℕ
before n j = if j == 0 then n - 1 else j - 1

next-before : (n i j : ℕ) → i < n → j < n → ((i + 1) % n == j) ≡ (i == before n j)
next-before n i j hi hj = elim (Bool-cases (i + 1 == n)) [
  | inl last ↦
      let full : i + 1 ≡ n = (==_iff (i + 1) n).0 last in
      let wrapped : (i + 1) % n ≡ 0 = ap (λ m. m % n) full ∙ mod_self n in
      rw wrapped (ground (arith, full, hi, hj))
  | inr inner ↦
      let small : i + 1 < n = ground (arith, hi, inner) in
      rw (mod-eq_of_lt small) (ground (arith, small, hi, hj))
]

ring-sent_by :
    (n : ℕ) (t : String) (p i k : ℕ)
    → sent_by p (map (λ x. pair t (x, (x + 1) % n)) (range_from i k))
      ≡ (if leb i p && ltb p (i + k) then 1 else 0)
ring-sent_by n t p i zero = ground arith
ring-sent_by n t p i (suc k) = ground (arith, ring-sent_by n t p (suc i) k)

ring-received_by :
    (n : ℕ) (t : String) (q i k : ℕ)
    → q < n
    → i + k ≤ n
    → received_by q (map (λ x. pair t (x, (x + 1) % n)) (range_from i k))
      ≡ (if leb i (before n q) && ltb (before n q) (i + k) then 1 else 0)
ring-received_by n t q i zero hq h = ground arith
ring-received_by n t q i (suc k) hq h = ground (
  arith,
  next-before n i q (omega (arith, h)) hq,
  ring-received_by n t q (suc i) k hq (omega (arith, h)),
)

-- In the ring set every host sends once and receives once.
pub ring_pairs-once :
    (n : ℕ) (tenant : String) (p : ℕ)
    → p < n
    → (sent_by p (ring_pairs n tenant) ≡ 1) × (received_by p (ring_pairs n tenant) ≡ 1)
unfolding ring_pairs
ring_pairs-once n tenant p h = (
  ring-sent_by n tenant p 0 n ∙ ground (arith, h),
  ring-received_by n tenant p 0 n h (omega arith) ∙ ground (arith, h),
)
