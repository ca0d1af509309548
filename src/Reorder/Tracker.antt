-- ===== src/Reorder/Tracker.antt =====
-- srv6_mrc/reorder.py: `ReorderTracker`, the statistics of each flow.
use mathlib.Core.Logic.{ite}
use native.Mathlib.Omega.{arith}
use srv6_mrc_emulator.Common.{ℕ, ◌≡◌, ◌∙◌, refl, sym, ap, List, [], ◌∷◌, Option, none, some}
use srv6_mrc_emulator.Common.Dict.{find, put, find-put_same, find-put_ne}
use srv6_mrc_emulator.Reorder.Defs.{FlowStats, new_stats, observe}
use srv6_mrc_emulator.Reorder.Counts.{Arrival, observed}

module _ {K : Type 0} (dec : Discrete K) where
  abbrev pub or_new : Option FlowStats → FlowStats
  or_new none = new_stats
  or_new (some st) = st

  unfoldable pub observe_flow : List (K × FlowStats) → K → ℕ → Option ℕ → List (K × FlowStats)
  observe_flow flows flow seq plane =
      put dec flow (observe (or_new (find dec flow flows)) seq plane) flows

  abbrev pub FlowArrival : Type 0
  FlowArrival = K × Arrival

  unfoldable pub observe_flows : List (K × FlowStats) → List FlowArrival → List (K × FlowStats)
  observe_flows flows [] = flows
  observe_flows flows ((flow, (seq, plane)) ∷ as_of) =
      observe_flows (observe_flow flows flow seq plane) as_of

  -- The arrivals of one flow.
  abbrev pub arrivals_of : K → List FlowArrival → List Arrival
  arrivals_of k [] = []
  arrivals_of k ((flow, a) ∷ as_of) =
      ite (dec flow k) (a ∷ arrivals_of k as_of) (arrivals_of k as_of)

  -- What a flow's statistics become with more arrivals: none stay none without any.
  abbrev pub watched : Option FlowStats → List Arrival → Option FlowStats
  watched none [] = none
  watched none (a ∷ as_of) = some (observed new_stats (a ∷ as_of))
  watched (some st) as_of = some (observed st as_of)

  watched-cons :
      (o : Option FlowStats) (seq : ℕ) (plane : Option ℕ) (as_of : List Arrival)
      → watched (some (observe (or_new o) seq plane)) as_of ≡ watched o ((seq, plane) ∷ as_of)
  unfolding observed
  watched-cons none seq plane as_of = refl
  watched-cons (some st) seq plane as_of = refl

  watched-nil : (o : Option FlowStats) → o ≡ watched o []
  unfolding observed
  watched-nil none = refl
  watched-nil (some st) = refl

  watched-observe :
      (flows : List (K × FlowStats)) (flow k : K) (seq : ℕ) (plane : Option ℕ)
      (as_of : List FlowArrival)
      → watched (find dec k (observe_flow flows flow seq plane)) (arrivals_of k as_of)
        ≡ watched (find dec k flows) (arrivals_of k ((flow, (seq, plane)) ∷ as_of))
  unfolding observe_flow
  watched-observe flows flow k seq plane as_of = elim (dec flow k) [
    | yes same ↦
        let st = observe (or_new (find dec flow flows)) seq plane in
        let stored : find dec k (put dec flow st flows) ≡ some st =
          ap (λ j. find dec j (put dec flow st flows)) (sym same)
          ∙ find-put_same dec flow st flows in
        let own : find dec flow flows ≡ find dec k flows = ap (λ j. find dec j flows) same in
        let added : arrivals_of k ((flow, (seq, plane)) ∷ as_of)
            ≡ (seq, plane) ∷ arrivals_of k as_of =
          ground (arith, same) in
        ap (λ o. watched o (arrivals_of k as_of)) stored
        ∙ ap (λ o. watched (some (observe (or_new o) seq plane)) (arrivals_of k as_of)) own
        ∙ watched-cons (find dec k flows) seq plane (arrivals_of k as_of)
        ∙ ap (watched (find dec k flows)) (sym added)
    | no other ↦
        let added : arrivals_of k ((flow, (seq, plane)) ∷ as_of) ≡ arrivals_of k as_of =
          ground (arith, other) in
        ap (λ o. watched o (arrivals_of k as_of))
          (find-put_ne dec k flow (observe (or_new (find dec flow flows)) seq plane) flows other)
        ∙ ap (watched (find dec k flows)) (sym added)
  ]

  -- The tracker keeps the flows apart: what it has for a flow is what the flow's own arrivals, in their order, make of
  -- what it had before.
  pub observe_flows-find :
      (as_of : List FlowArrival) (flows : List (K × FlowStats)) (k : K)
      → find dec k (observe_flows flows as_of) ≡ watched (find dec k flows) (arrivals_of k as_of)
  unfolding observe_flows
  observe_flows-find [] flows k = watched-nil (find dec k flows)
  observe_flows-find ((flow, (seq, plane)) ∷ as_of) flows k =
      observe_flows-find as_of (observe_flow flows flow seq plane) k
      ∙ watched-observe flows flow k seq plane as_of
