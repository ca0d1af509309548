-- ===== src/Topo/Spines.antt =====
-- srv6_mrc/topo.py: the spines of a pair are distinct and the same in both directions.
use srv6_mrc_emulator.Common.{
  ℕ, zero, suc, ◌+◌, ◌-◌, ◌%◌, ◌≤◌, ◌<◌, ◌≡◌, refl, ap, ◌∙◌, true, false, ◌&&◌, List, [], ◌∷◌, ltb,
  leb, if◌then◌else◌, arith, length, remove_at, range, range_from, occurrences,
  occurrences-remove_at, length-remove_at, value_error, >>=-eq-ok, ok, guard,
}
use native.Mathlib.Nat.{mod-lt}
use srv6_mrc_emulator.Topo.Defs.{
  Text, draw, pick_spines, select_spines_from_seed, text_le, pair_seed, select_spines_for_addrs,
  fnv1a,
}

length-pick_spines :
    (m base step n : ℕ) (pool : List ℕ) → length (pick_spines m base step n pool) ≡ n
unfolding pick_spines
length-pick_spines m base step zero pool = refl
length-pick_spines m base step (suc n) pool =
    ap suc (length-pick_spines m base (suc step) n (remove_at (draw base step % (m - step)) pool))

-- The picks are taken out of the pool.
occurrences-pick_spines :
    (m base step n v : ℕ) (pool : List ℕ)
    → length pool ≡ m - step
    → step + n ≤ m
    → occurrences v (pick_spines m base step n pool) ≤ occurrences v pool
unfolding pick_spines
occurrences-pick_spines m base step zero v pool h k = omega arith
occurrences-pick_spines m base step (suc n) v pool h k =
    let j = draw base step % (m - step) in
    let inside : j < length pool = rw h (mod-lt (draw base step) (omega (arith, k))) in
    let rest =
      occurrences-pick_spines m base (suc step) n v (remove_at j pool)
        (omega (arith, length-remove_at j pool inside, h)) (omega (arith, k)) in
    ground (arith, occurrences-remove_at v j pool inside, rest)

range_from-occurrences :
    (v i n : ℕ) → occurrences v (range_from i n) ≡ (if leb i v && ltb v (i + n) then 1 else 0)
range_from-occurrences v i zero = ground arith
range_from-occurrences v i (suc n) = ground (arith, range_from-occurrences v (suc i) n)

-- One for a number below the bound, none for another.
abbrev pub once_below : ℕ → ℕ → ℕ
once_below m v = if ltb v m then 1 else 0

range-occurrences : (m v : ℕ) → occurrences v (range m) ≡ once_below m v
range-occurrences m v = ground (arith, range_from-occurrences v 0 m)

length-range_from : (i n : ℕ) → length (range_from i n) ≡ n
length-range_from i zero = refl
length-range_from i (suc n) = ap suc (length-range_from (suc i) n)

-- Picking as many spines as there are leaves the pool empty: each is picked.
occurrences-pick_spines_all :
    (m base step n v : ℕ) (pool : List ℕ)
    → length pool ≡ n
    → m ≡ step + n
    → occurrences v (pick_spines m base step n pool) ≡ occurrences v pool
unfolding pick_spines
occurrences-pick_spines_all m base step zero v [] h k = refl
occurrences-pick_spines_all m base step zero v (x ∷ pool) h k = absurd (omega (arith, h))
occurrences-pick_spines_all m base step (suc n) v pool h k =
    let j = draw base step % (m - step) in
    let some_left : 0 < m - step = omega (arith, k) in
    let bound : j < m - step = mod-lt (draw base step) some_left in
    let inside : j < length pool = omega (arith, h, k, bound) in
    let rest =
      occurrences-pick_spines_all m base (suc step) n v (remove_at j pool)
        (omega (arith, length-remove_at j pool inside, h)) (omega (arith, k)) in
    ground (arith, occurrences-remove_at v j pool inside, rest)

text_le-total : (a b : Text) → text_le a b ≡ false → text_le b a ≡ true
unfolding text_le
text_le-total [] b h = cc
text_le-total (x ∷ a) [] h = refl
text_le-total (x ∷ a) (y ∷ b) h = ground (arith, text_le-total a b)

text_le_antisymm : (a b : Text) → text_le a b ≡ true → text_le b a ≡ true → a ≡ b
unfolding text_le
text_le_antisymm [] [] h k = refl
text_le_antisymm [] (y ∷ b) h k = cc
text_le_antisymm (x ∷ a) [] h k = cc
text_le_antisymm (x ∷ a) (y ∷ b) h k = ground (arith, text_le_antisymm a b)

from_seed-distinct :
    (m n v : ℕ) (seed : Text)
    → n ≤ m
    → (length (select_spines_from_seed m seed n) ≡ n)
      × (occurrences v (select_spines_from_seed m seed n) ≤ once_below m v)
unfolding select_spines_from_seed
from_seed-distinct m n v seed h = (
  length-pick_spines m (fnv1a seed) 0 n (range m),
  omega (
    arith,
    occurrences-pick_spines m (fnv1a seed) 0 n v (range m) (omega (arith, length-range_from 0 m))
        (omega (arith, h)),
    range-occurrences m v,
  ),
)

-- The spines of a pair of addresses are as many as asked for, all below the number of spines, and no
-- two the same.
pub select_spines_for_addrs-distinct :
    (m n v : ℕ) (src dst : Text) {picks : List ℕ}
    → select_spines_for_addrs m src dst n ≡ ok picks
    → (length picks ≡ n) × (occurrences v picks ≤ once_below m v)
unfolding select_spines_for_addrs
select_spines_for_addrs-distinct m n v src dst {picks} h =
    let (_, size, e) = >>=-eq-ok (guard (leb 1 n && leb n m) value_error) _ h in
    let bound : n ≤ m = ground arith in
    let seed = if text_le src dst then pair_seed src dst else pair_seed dst src in
    let same : select_spines_from_seed m seed n ≡ picks = ground arith in
    rw (← same) (from_seed-distinct m n v seed bound)

pub select_spines_for_addrs-bounds :
    (m n : ℕ) (src dst : Text) {picks : List ℕ}
    → select_spines_for_addrs m src dst n ≡ ok picks
    → (1 ≤ n) × (n ≤ m)
unfolding select_spines_for_addrs
select_spines_for_addrs-bounds m n src dst h = (ground arith, ground arith)

-- With all the spines asked for, each one is picked exactly once.
pub select_spines_for_addrs-all :
    (m v : ℕ) (src dst : Text) {picks : List ℕ}
    → select_spines_for_addrs m src dst m ≡ ok picks
    → occurrences v picks ≡ once_below m v
unfolding select_spines_for_addrs select_spines_from_seed
select_spines_for_addrs-all m v src dst {picks} h =
    let (_, size, e) = >>=-eq-ok (guard (leb 1 m && leb m m) value_error) _ h in
    let seed = if text_le src dst then pair_seed src dst else pair_seed dst src in
    let same : select_spines_from_seed m seed m ≡ picks = ground arith in
    rw (← same) (
      occurrences-pick_spines_all m (fnv1a seed) 0 m v (range m) (length-range_from 0 m)
        (omega arith)
      ∙ range-occurrences m v)

-- A sender and the sender of the reverse direction use the same spines, in the same order.
pub select_spines_for_addrs-symmetric :
    (m n : ℕ) (src dst : Text)
    → select_spines_for_addrs m src dst n ≡ select_spines_for_addrs m dst src n
unfolding select_spines_for_addrs
select_spines_for_addrs-symmetric m n src dst =
    ground (arith, text_le-total src dst, text_le-total dst src, text_le_antisymm src dst)
