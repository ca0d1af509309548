-- ===== src/LossCompute/Pairing.antt =====
-- srv6_mrc/mrc/loss_compute.py: which window `find_closest` pairs a report with.
use srv6_mrc_emulator.Common.{
  ℕ, ◌+◌, ◌≤◌, ◌<◌, ◌≡◌, ◌≢◌, ◌↔◌, ◌⊎◌, refl, ap, inl, inr, false, List, [], ◌∷◌, ◌++◌, Option,
  none, some, ltb, arith, All, Bool-cases,
}
use srv6_mrc_emulator.LossCompute.Ring.{
  SentWindow, SentWindowRing, skew, closest_from, find_closest,
}

-- `w` is the first of the windows with the least skew.
pub record IsFirstClosest (target_ns : ℕ) (w : SentWindow) (ws : List SentWindow) : Type 0 where
  pub before : List SentWindow
  pub after : List SentWindow
  pub split : ws ≡ before ++ w ∷ after
  pub older : All (λ v. skew target_ns w < skew target_ns v) before
  pub newer : All (λ v. skew target_ns w ≤ skew target_ns v) after

closest_from-cases :
    (target : ℕ) (best : Option SentWindow) (bs : ℕ) (ws : List SentWindow) (w : SentWindow)
    → closest_from target best bs ws ≡ some w
    → ((best ≡ some w) × All (λ v. bs ≤ skew target v) ws)
      ⊎ (IsFirstClosest target w ws × (skew target w < bs))
unfolding closest_from
closest_from-cases target best bs [] w h = inl (h, tt)
closest_from-cases target best bs (v ∷ ws) w h = elim (Bool-cases (ltb (skew target v) bs)) [
  | inl near ↦
      let h' : closest_from target (some v) (skew target v) ws ≡ some w = rw near at h in
      elim (closest_from-cases target (some v) (skew target v) ws w h') [
        | inl (e, rest) ↦
            let same : v ≡ w = ground arith in
            inr (
              rw (← same)
                  (record { before = []; after = ws; split = refl; older = tt; newer = rest }),
              rw (← same) (ground arith),
            )
        | inr (c, lt) ↦ inr (
          record {
            before = v ∷ c.before;
            after = c.after;
            split = ap (◌∷◌ v) c.split;
            older = (lt, c.older);
            newer = c.newer;
          },
          ground arith,
        )
      ]
  | inr far ↦
      let h' : closest_from target best bs ws ≡ some w = rw far at h in
      elim (closest_from-cases target best bs ws w h') [
        | inl (e, rest) ↦ inl (e, (ground arith, rest))
        | inr (c, lt) ↦ inr (
          record {
            before = v ∷ c.before;
            after = c.after;
            split = ap (◌∷◌ v) c.split;
            older = (ground arith, c.older);
            newer = c.newer;
          },
          lt,
        )
      ]
]

-- The window that a report is paired with lies within the allowed skew, no window of the ring is
-- nearer, and it is the first of the nearest.
pub find_closest-some :
    (r : SentWindowRing) (target_ns max_skew_ns : ℕ) (w : SentWindow)
    → find_closest r target_ns max_skew_ns ≡ some w
    → IsFirstClosest target_ns w r.ring × (skew target_ns w ≤ max_skew_ns)
unfolding find_closest
find_closest-some r target max_skew w h =
    elim (closest_from-cases target none (max_skew + 1) r.ring w h) [
      | inl (e, rest) ↦ absurd (ground arith)
      | inr (c, lt) ↦ (c, omega arith)
    ]

closest_from-found :
    (target : ℕ) (b : SentWindow) (bs : ℕ) (ws : List SentWindow)
    → closest_from target (some b) bs ws ≢ none
unfolding closest_from
closest_from-found target b bs [] h = cc
closest_from-found target b bs (v ∷ ws) h = elim (Bool-cases (ltb (skew target v) bs)) [
  | inl near ↦ closest_from-found target v (skew target v) ws (rw near at h)
  | inr far ↦ closest_from-found target b bs ws (rw far at h)
]

closest_from-none :
    (target bs : ℕ) (ws : List SentWindow)
    → closest_from target none bs ws ≡ none
    → All (λ v. bs ≤ skew target v) ws
unfolding closest_from
closest_from-none target bs [] h = tt
closest_from-none target bs (v ∷ ws) h = elim (Bool-cases (ltb (skew target v) bs)) [
  | inl near ↦ absurd (closest_from-found target v (skew target v) ws (rw near at h))
  | inr far ↦ (ground arith, closest_from-none target bs ws (rw far at h))
]

none-closest_from :
    (target bs : ℕ) (ws : List SentWindow)
    → All (λ v. bs ≤ skew target v) ws
    → closest_from target none bs ws ≡ none
unfolding closest_from
none-closest_from target bs [] h = refl
none-closest_from target bs (v ∷ ws) h =
    let far : ltb (skew target v) bs ≡ false = ground arith in
    rw far (none-closest_from target bs ws h.1)

-- A report stays unpaired exactly when every window of the ring is outside the allowed skew.
pub find_closest-none_iff :
    (r : SentWindowRing) (target_ns max_skew_ns : ℕ)
    → (find_closest r target_ns max_skew_ns ≡ none)
      ↔ All (λ w. max_skew_ns + 1 ≤ skew target_ns w) r.ring
unfolding find_closest
find_closest-none_iff r target max_skew =
    (closest_from-none target (max_skew + 1) r.ring, none-closest_from target (max_skew + 1) r.ring)
