-- ===== src/Policy/Spray.antt =====
-- srv6_mrc/policy.py: the round of `EvSpray` over the EVs of a flow.
use native.Mathlib.Nat.{
  mod-lt, mod-eq_of_lt, div-add-mod, mul-add-mod_self_left, mul_assoc, mod-add-mod, mod_self,
}
use srv6_mrc_emulator.Common.{
  ℕ, ◌+◌, ◌*◌, ◌/◌, ◌%◌, ◌≤◌, ◌<◌, ◌≡◌, ◌≢◌, ◌∙◌, ap, sym, inl, inr, List, ltb, arith, length,
  occurrences, Bool-cases,
}
use srv6_mrc_emulator.Topo.Defs.{Shape}
use srv6_mrc_emulator.Policy.Defs.{spray_ev, round_robin_pick}

-- The elements of a list are all different.
abbrev pub IsDistinct : List ℕ → Type 0
IsDistinct xs = (v : ℕ) → occurrences v xs ≤ 1

mod-of_mod_mul : (x n k : ℕ) → x % (n * k) % n ≡ x % n
mod-of_mod_mul x n k =
    let r = x % (n * k) in
    let e : n * (k * (x / (n * k))) + r ≡ x =
      omega (arith, mul_assoc n k (x / (n * k)), div-add-mod x (n * k)) in
    sym (mul-add-mod_self_left n (k * (x / (n * k))) r) ∙ ap (λ (y : ℕ). y % n) e

-- The plane of a packet is the one that `RoundRobin` takes, and with two planes or more the next
-- packet of the flow is on another plane.
pub spray_ev-plane :
    (sh : Shape) (spines : List ℕ) (seq : ℕ)
    → 2 ≤ sh.num_planes
    → ((spray_ev sh spines seq).0 ≡ round_robin_pick sh seq)
      × ((spray_ev sh spines seq).0 ≢ (spray_ev sh spines (seq + 1)).0)
unfolding spray_ev round_robin_pick
spray_ev-plane sh spines seq h =
    let n = sh.num_planes in
    let k = length spines in
    (
      mod-of_mod_mul seq n k,
      λ e. next (sym (mod-of_mod_mul seq n k) ∙ e ∙ mod-of_mod_mul (seq + 1) n k),
    )
  where
    next : seq % sh.num_planes ≡ (seq + 1) % sh.num_planes → ⊥
    next e =
        let n = sh.num_planes in
        let step : (seq % n + 1) % n ≡ (seq + 1) % n = mod-add-mod seq n 1 in
        elim (Bool-cases (ltb (seq % n + 1) n)) [
          | inl near ↦
              let below : seq % n + 1 < n = ground arith in
              omega (arith, e, step, mod-eq_of_lt below)
          | inr far ↦
              let full : seq % n + 1 ≡ n = ground (arith, mod-lt seq {m = n} (omega (arith, h))) in
              let wrapped : (seq % n + 1) % n ≡ 0 = ap (λ (m : ℕ). m % n) full ∙ mod_self n in
              omega (arith, e, step, wrapped, full, h)
        ]
