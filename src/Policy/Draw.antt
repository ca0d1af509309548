-- ===== src/Policy/Draw.antt =====
-- srv6_mrc/policy.py: a weighted draw never lands on an entry of weight zero.
use native.Mathlib.Nat.{
  mod-lt, mod-eq_of_lt, add-mod_left, div-eq_of_lt, add-div_left, mul-lt-mul_of_pos_right,
}
use srv6_mrc_emulator.Common.{
  ℕ, zero, suc, ◌+◌, ◌-◌, ◌*◌, ◌/◌, ◌%◌, ◌^◌, ◌≤◌, ◌<◌, ◌≡◌, ◌∙◌, ap, refl, sym, inl, inr, true,
  List, [], ◌∷◌, ◌++◌, map, ltb, arith, length, get_or, length-append, Grid, Bool-cases,
}
use srv6_mrc_emulator.Topo.Defs.{FlowKey, wrap64, hash5}
use srv6_mrc_emulator.Policy.Defs.{
  golden_ratio_64, total, cdf_from, force_last, build_cdf, first_above, weighted_pick, flat_from,
}

-- The index of a drawn entry, from `p` on, and that it has weight.
pub record IsDrawn (p i : ℕ) (ws : List ℕ) : Type 0 where
  pub index : ℕ
  pub at : i ≡ p + index
  pub inside : index < length ws
  pub weight : 0 < get_or ws index 0

-- x / 2^64 lies below (cum + w) / sum, and not below cum / sum.
first_above-IsDrawn :
    (x last p sum cum : ℕ) (ws : List ℕ)
    → x < 2 ^ 64
    → 0 < length ws
    → 0 < sum
    → sum ≡ cum + total ws
    → cum * 2 ^ 64 ≤ x * sum
    → IsDrawn p
        (first_above (record { num = x; den = 2 ^ 64 }) last p (force_last (cdf_from sum cum ws)))
        ws
unfolding first_above force_last cdf_from
first_above-IsDrawn x last p sum cum [] hx some_left hs e low = absurd (omega (arith, some_left))
first_above-IsDrawn x last p sum cum (w ∷ []) hx some_left hs e low =
    let bound : x * sum < 2 ^ 64 * sum = mul-lt-mul_of_pos_right hx hs in
    let near : ltb (x * 1) (1 * 2 ^ 64) ≡ true = ground arith in
    rw near (record {
      index = 0;
      at = omega arith;
      inside = omega arith;
      weight = omega (arith, bound, low, e);
    })
first_above-IsDrawn x last p sum cum (w ∷ (w' ∷ ws)) hx some_left hs e low =
    elim (Bool-cases (ltb (x * sum) ((cum + w) * 2 ^ 64))) [
      | inl near ↦
          rw near
            (record { index = 0; at = omega arith; inside = omega arith; weight = ground arith })
      | inr far ↦
          let ih =
            first_above-IsDrawn x last (suc p) sum (cum + w) (w' ∷ ws) hx (omega arith) hs
              (omega (arith, e)) (ground arith) in
          rw far (record {
            index = suc ih.index;
            at = omega (arith, ih.at);
            inside = omega (arith, ih.inside);
            weight = ih.weight;
          })
    ]

pub weighted_pick-IsDrawn :
    (seq : ℕ) (flow : FlowKey) (ws : List ℕ)
    → 0 < total ws
    → IsDrawn 0 (weighted_pick seq flow (build_cdf ws)) ws
unfolding weighted_pick build_cdf
weighted_pick-IsDrawn seq flow [] h = absurd (omega (arith, h))
weighted_pick-IsDrawn seq flow (w ∷ ws) h =
    let x = hash5 flow + seq * golden_ratio_64 in
    first_above-IsDrawn (wrap64 x) (length (force_last (cdf_from (total (w ∷ ws)) 0 (w ∷ ws))) - 1)
      0 (total (w ∷ ws)) 0 (w ∷ ws) (mod-lt x (omega arith)) (omega arith) h (omega arith)
      (omega arith)

length-map_row :
    (w : Grid ℕ) (p : ℕ) (spines : List ℕ) → length (map (λ sp. w p sp) spines) ≡ length spines
length-map_row w p [] = refl
length-map_row w p (s ∷ spines) = ap suc (length-map_row w p spines)

get_or-map_row :
    (w : Grid ℕ) (p i : ℕ) (spines : List ℕ)
    → i < length spines
    → get_or (map (λ sp. w p sp) spines) i 0 ≡ w p (get_or spines i 0)
get_or-map_row w p i [] h = absurd (omega (arith, h))
get_or-map_row w p zero (s ∷ spines) h = refl
get_or-map_row w p (suc i) (s ∷ spines) h = get_or-map_row w p i spines (omega (arith, h))

get_or-append_left :
    (xs ys : List ℕ) (i : ℕ) → i < length xs → get_or (xs ++ ys) i 0 ≡ get_or xs i 0
get_or-append_left [] ys i h = absurd (omega (arith, h))
get_or-append_left (x ∷ xs) ys zero h = refl
get_or-append_left (x ∷ xs) ys (suc i) h = get_or-append_left xs ys i (omega (arith, h))

get_or-append_right : (xs ys : List ℕ) (i : ℕ) → get_or (xs ++ ys) (length xs + i) 0 ≡ get_or ys i 0
get_or-append_right [] ys i = ap (λ (j : ℕ). get_or ys j 0) (omega arith)
get_or-append_right (x ∷ xs) ys i =
    let e : suc (length xs) + i ≡ suc (length xs + i) = omega arith in
    rw e (get_or-append_right xs ys i)

pub length-flat_from :
    (w : Grid ℕ) (spines : List ℕ) (p n : ℕ) → length (flat_from w spines p n) ≡ n * length spines
unfolding flat_from
length-flat_from w spines p zero = omega arith
length-flat_from w spines p (suc n) = omega (
  arith,
  length-append (map (λ sp. w p sp) spines) (flat_from w spines (suc p) n),
  length-map_row w p spines,
  length-flat_from w spines (suc p) n,
)

-- The flat index names a plane and a spine.
pub get_or-flat_from :
    (w : Grid ℕ) (spines : List ℕ) (p n i : ℕ)
    → 0 < length spines
    → i < n * length spines
    → get_or (flat_from w spines p n) i 0
      ≡ w (p + i / length spines) (get_or spines (i % length spines) 0)
unfolding flat_from
get_or-flat_from w spines p zero i hk h = absurd (omega (arith, h))
get_or-flat_from w spines p (suc n) i hk h =
    let k = length spines in
    let row = map (λ sp. w p sp) spines in
    let rest = flat_from w spines (suc p) n in
    elim (Bool-cases (ltb i k)) [
      | inl near ↦
          let lt : i < k = ground arith in
          rw (div-eq_of_lt lt, mod-eq_of_lt lt)
            (get_or-append_left row rest i (omega (arith, lt, length-map_row w p spines))
              ∙ get_or-map_row w p i spines lt
              ∙ ap (λ (q : ℕ). w q (get_or spines i 0)) (omega arith))
      | inr far ↦
          let j = i - k in
          let e : i ≡ k + j = ground arith in
          let ih = get_or-flat_from w spines (suc p) n j hk (omega (arith, h, e)) in
          let at : get_or (row ++ rest) (k + j) 0 ≡ get_or rest j 0 =
            ap (λ (m : ℕ). get_or (row ++ rest) (m + j) 0) (sym (length-map_row w p spines))
            ∙ get_or-append_right row rest j in
          let plane : suc p + j / k ≡ p + (k + j) / k = omega (arith, add-div_left j hk) in
          ap (λ (m : ℕ). get_or (row ++ rest) m 0) e
          ∙ at
          ∙ ih
          ∙ ap (λ (q : ℕ). w q (get_or spines (j % k) 0)) plane
          ∙ ap (λ (m : ℕ). w (p + (k + j) / k) (get_or spines m 0)) (sym (add-mod_left k j))
          ∙ ap (λ (m : ℕ). w (p + m / k) (get_or spines (m % k) 0)) (sym e)
    ]
