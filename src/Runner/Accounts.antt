-- ===== src/Runner/Accounts.antt =====
-- srv6_mrc/runner.py: what the receiver has counted, against the calls of its callbacks.
use mathlib.Core.Logic.{ite}
use srv6_mrc_emulator.Common.{
  ℕ, suc, ◌+◌, ◌-◌, ◌≤◌, ◌≡◌, ◌∙◌, refl, sym, ap, Bool, true, false, not, ◌&&◌, ◌||◌, List, [], ◌∷◌,
  Option, none, some, ◌==◌, if◌then◌else◌, length, arith, occurrences,
}
use srv6_mrc_emulator.Common.Dict.{find, find-put_of_eq, find-put_ne, ite_yes, ite_no}
use srv6_mrc_emulator.Reorder.Defs.{FlowStats, total, contains, discard, observe}
use srv6_mrc_emulator.Reorder.Tracker.{or_new}
use srv6_mrc_emulator.Runner.Receiver.{
  RxFlow, rx_discrete, TrimCounts, Callback, on_packet, on_trimmed, Receiver, counts_or_zero,
  or_empty, add, take_trimmed,
}

-- The same flow and the same number.
abbrev pub is_same : RxFlow → ℕ → RxFlow → ℕ → Bool
is_same f s flow seq = ite (rx_discrete f flow) (s == seq) false

-- The packets delivered.
abbrev pub packets : List Callback → ℕ
packets [] = 0
packets (on_packet f plane path s ∷ calls) = suc (packets calls)
packets (on_trimmed f plane path s ∷ calls) = packets calls

-- Whether the last that was heard of a flow's packet is that it was trimmed.
abbrev pub awaits : RxFlow → ℕ → List Callback → Bool
awaits flow seq [] = false
awaits flow seq (on_packet f plane path s ∷ calls) =
    not (is_same f s flow seq) && awaits flow seq calls
awaits flow seq (on_trimmed f plane path s ∷ calls) = is_same f s flow seq || awaits flow seq calls

-- The statistics of a flow's packets, in their order.
abbrev pub stats_of : RxFlow → List Callback → Option FlowStats
stats_of flow [] = none
stats_of flow (on_packet f plane path s ∷ calls) =
    ite (rx_discrete f flow)
      (some (observe (or_new rx_discrete (stats_of flow calls)) s (some plane)))
      (stats_of flow calls)
stats_of flow (on_trimmed f plane path s ∷ calls) = stats_of flow calls

abbrev pub pending : Receiver → RxFlow → List ℕ
pending r flow = or_empty (find rx_discrete flow r.trim_pending)

abbrev pub trims : Receiver → RxFlow → TrimCounts
trims r flow = counts_or_zero (find rx_discrete flow r.trim_stats)

pub record IsAccounted (r : Receiver) : Type 0 where
  pub nics : total r.per_nic ≡ packets r.calls
  pub planes : total r.per_plane ≡ packets r.calls
  pub tracked : (flow : RxFlow) → find rx_discrete flow r.tracker ≡ stats_of flow r.calls
  pub awaited :
      (flow : RxFlow) (seq : ℕ)
      → occurrences seq (pending r flow) ≡ (if awaits flow seq r.calls then 1 else 0)
  pub unrecovered :
      (flow : RxFlow) → (trims r flow).recovered + length (pending r flow) ≤ (trims r flow).trimmed
  pub known :
      (flow : RxFlow) (s : List ℕ)
      → find rx_discrete flow r.trim_pending ≡ some s
      → (c : TrimCounts) × (find rx_discrete flow r.trim_stats ≡ some c)

pub contains-occurrences : (seq : ℕ) (s : List ℕ) → contains seq s ≡ not (occurrences seq s == 0)
contains-occurrences seq [] = refl
contains-occurrences seq (x ∷ s) = ground (arith, contains-occurrences seq s)

occurrences-add :
    (v seq : ℕ) (s : List ℕ)
    → occurrences seq s ≤ 1
    → occurrences v (add seq s) ≡ (if v == seq then 1 else occurrences v s)
occurrences-add v seq s h = ground (arith, contains-occurrences seq s)

length-add : (seq : ℕ) (s : List ℕ) → length (add seq s) ≤ length s + 1
length-add seq s = ground arith

pub occurrences-discard :
    (v seq : ℕ) (s : List ℕ)
    → occurrences v (discard seq s) ≡ occurrences v s - (if v == seq then 1 else 0)
occurrences-discard v seq [] = ground arith
occurrences-discard v seq (x ∷ s) = ground (arith, occurrences-discard v seq s)

pub length-discard :
    (seq : ℕ) (s : List ℕ) → contains seq s ≡ true → length (discard seq s) + 1 ≡ length s
length-discard seq [] h = cc
length-discard seq (x ∷ s) h = ground (arith, length-discard seq s)

at_most_one : (b : Bool) → (if b then 1 else 0) ≤ 1
at_most_one true = omega arith
at_most_one false = omega arith

added_once :
    (v seq o : ℕ) (b : Bool)
    → o ≡ (if b then 1 else 0)
    → (if v == seq then 1 else o) ≡ (if seq == v || b then 1 else 0)
added_once v seq o b h = ground (arith, h)

pub dropped :
    (v seq o : ℕ) (b : Bool)
    → o ≡ (if b then 1 else 0)
    → o - (if v == seq then 1 else 0) ≡ (if not (seq == v) && b then 1 else 0)
dropped v seq o b h = ground (arith, h)

module _ (r : Receiver) (h : IsAccounted r) (flow : RxFlow) (seq plane path now : ℕ) where
  abbrev trimmed_one : TrimCounts
  trimmed_one = record {
    trimmed = (trims r flow).trimmed + 1;
    recovered = (trims r flow).recovered;
  }

  trimmed-awaited :
      (k : RxFlow) (v : ℕ)
      → occurrences v (pending (take_trimmed r flow seq plane path now) k)
        ≡ (if awaits k v (on_trimmed flow plane path seq ∷ r.calls) then 1 else 0)
  unfolding take_trimmed
  trimmed-awaited k v = elim (rx_discrete flow k) [
    | yes same ↦
        let now_pending : pending (take_trimmed r flow seq plane path now) k
            ≡ add seq (pending r k) =
          ap or_empty
            (find-put_of_eq rx_discrete k flow (add seq (pending r flow)) r.trim_pending same)
          ∙ ap (λ j. add seq (pending r j)) same in
        let own : is_same flow seq k v ≡ (seq == v) = ite_yes rx_discrete flow k _ _ same in
        let one : occurrences seq (pending r k) ≤ 1 =
          rw (h.awaited k seq) (at_most_one (awaits k seq r.calls)) in
        rw own (
          ap (occurrences v) now_pending
          ∙ occurrences-add v seq (pending r k) one
          ∙ added_once v seq _ (awaits k v r.calls) (h.awaited k v))
    | no other ↦
        let now_pending : pending (take_trimmed r flow seq plane path now) k ≡ pending r k =
          ap or_empty
            (find-put_ne rx_discrete k flow (add seq (pending r flow)) r.trim_pending other) in
        let not_own : is_same flow seq k v ≡ false = ite_no rx_discrete flow k _ _ other in
        rw not_own (ap (occurrences v) now_pending ∙ h.awaited k v)
  ]

  trimmed-unrecovered :
      (k : RxFlow)
      → let r' = take_trimmed r flow seq plane path now in
        (trims r' k).recovered + length (pending r' k) ≤ (trims r' k).trimmed
  unfolding take_trimmed
  trimmed-unrecovered k = elim (rx_discrete flow k) [
    | yes same ↦
        let now_trims : trims (take_trimmed r flow seq plane path now) k ≡ trimmed_one =
          ap counts_or_zero (find-put_of_eq rx_discrete k flow trimmed_one r.trim_stats same) in
        let now_pending : pending (take_trimmed r flow seq plane path now) k
            ≡ add seq (pending r flow) =
          ap or_empty
            (find-put_of_eq rx_discrete k flow (add seq (pending r flow)) r.trim_pending same) in
        rw (now_trims, now_pending)
          (omega (arith, h.unrecovered flow, length-add seq (pending r flow)))
    | no other ↦
        let now_trims : trims (take_trimmed r flow seq plane path now) k ≡ trims r k =
          ap counts_or_zero (find-put_ne rx_discrete k flow trimmed_one r.trim_stats other) in
        let now_pending : pending (take_trimmed r flow seq plane path now) k ≡ pending r k =
          ap or_empty
            (find-put_ne rx_discrete k flow (add seq (pending r flow)) r.trim_pending other) in
        rw (now_trims, now_pending) (h.unrecovered k)
  ]

  trimmed-known :
      (k : RxFlow) (s : List ℕ)
      → find rx_discrete k (take_trimmed r flow seq plane path now).trim_pending ≡ some s
      → (c : TrimCounts) × (find rx_discrete k (take_trimmed r flow seq plane path now).trim_stats
          ≡ some c)
  unfolding take_trimmed
  trimmed-known k s at = elim (rx_discrete flow k) [
    | yes same ↦ (trimmed_one, find-put_of_eq rx_discrete k flow trimmed_one r.trim_stats same)
    | no other ↦
        let (c, has) = h.known k s (
          sym (find-put_ne rx_discrete k flow (add seq (pending r flow)) r.trim_pending other)
          ∙ at) in
        (c, find-put_ne rx_discrete k flow trimmed_one r.trim_stats other ∙ has)
  ]

  pub take_trimmed-IsAccounted : IsAccounted (take_trimmed r flow seq plane path now)
  unfolding take_trimmed
  take_trimmed-IsAccounted = record {
    nics = h.nics;
    planes = h.planes;
    tracked = h.tracked;
    awaited = trimmed-awaited;
    unrecovered = trimmed-unrecovered;
    known = λ k s at. trimmed-known k s at;
  }
