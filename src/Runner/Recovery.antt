-- ===== src/Runner/Recovery.antt =====
-- srv6_mrc/runner.py: the delivery of a packet, with the recovery of one that had been trimmed.
use srv6_mrc_emulator.Common.{
  ℕ, ◌+◌, ◌-◌, ◌≤◌, ◌≡◌, ◌≢◌, ◌∙◌, refl, sym, ap, true, false, not, ◌&&◌, List, Option, none, some,
  ◌==◌, ==_iff, if◌then◌else◌, length, arith, Bool-cases, inl, inr, occurrences, ok,
}
use srv6_mrc_emulator.Common.Dict.{find, put, find-put_of_eq, find-put_ne, ite_yes, ite_no}
use srv6_mrc_emulator.Reorder.Defs.{total, contains, discard, observe}
use srv6_mrc_emulator.Reorder.Counts.{bump-total}
use srv6_mrc_emulator.Reorder.Tracker.{observe_flow, or_new}
use srv6_mrc_emulator.Runner.Receiver.{
  RxFlow, rx_discrete, TrimCounts, Receiver, counts_or_zero, or_empty, count_recovered, recover,
  deliver,
}
use srv6_mrc_emulator.Runner.Accounts.{
  is_same, packets, awaits, stats_of, pending, trims, IsAccounted, contains-occurrences,
  occurrences-discard, length-discard, dropped,
}

-- What delivery adds, to a state that has the pending number recovered.
pub record IsRecovered (r s : Receiver) (flow : RxFlow) (seq : ℕ) : Type 0 where
  pub tracker : s.tracker ≡ r.tracker
  pub nics : s.per_nic ≡ r.per_nic
  pub planes : s.per_plane ≡ r.per_plane
  pub calls : s.calls ≡ r.calls
  pub here :
      (v : ℕ)
      → occurrences v (pending s flow) ≡ (if not (seq == v) && awaits flow v r.calls then 1 else 0)
  pub others : (k : RxFlow) → flow ≢ k → pending s k ≡ pending r k
  pub unrecovered :
      (k : RxFlow) → (trims s k).recovered + length (pending s k) ≤ (trims s k).trimmed
  pub known :
      (k : RxFlow) (p : List ℕ)
      → find rx_discrete k s.trim_pending ≡ some p
      → (c : TrimCounts) × (find rx_discrete k s.trim_stats ≡ some c)

pub delivered-IsAccounted :
    (r s : Receiver) (flow : RxFlow) (nic seq plane path now : ℕ)
    → IsAccounted r
    → IsRecovered r s flow seq
    → IsAccounted (deliver nic flow seq plane path now (s, ok tt))
unfolding observe_flow
delivered-IsAccounted r s flow nic seq plane path now h g = record {
  nics = omega (arith, bump-total nic s.per_nic, ap total g.nics, ap packets g.calls, h.nics);
  planes =
      omega (arith, bump-total plane s.per_plane, ap total g.planes, ap packets g.calls, h.planes);
  tracked = λ k. elim (rx_discrete flow k) [
    | yes same ↦
        find-put_of_eq rx_discrete k flow _ s.tracker same
        ∙ ap (λ o. some (observe (or_new rx_discrete o) seq (some plane)))
            (ap (λ j. find rx_discrete j s.tracker) same
              ∙ ap (find rx_discrete k) g.tracker
              ∙ h.tracked k
              ∙ ap (stats_of k) (sym g.calls))
        ∙ sym (ite_yes rx_discrete flow k _ _ same)
    | no other ↦
        find-put_ne rx_discrete k flow _ s.tracker other
        ∙ ap (find rx_discrete k) g.tracker
        ∙ h.tracked k
        ∙ ap (stats_of k) (sym g.calls)
        ∙ sym (ite_no rx_discrete flow k _ _ other)
  ];
  awaited = λ k v. elim (rx_discrete flow k) [
    | yes same ↦
        let own : is_same flow seq k v ≡ (seq == v) = ite_yes rx_discrete flow k _ _ same in
        rw (own, g.calls)
          (ap (λ j. occurrences v (pending s j)) (sym same)
            ∙ g.here v
            ∙ ap (λ j. if not (seq == v) && awaits j v r.calls then 1 else 0) same)
    | no other ↦
        let not_own : is_same flow seq k v ≡ false = ite_no rx_discrete flow k _ _ other in
        rw (not_own, g.calls) (ap (occurrences v) (g.others k other) ∙ h.awaited k v)
  ];
  unrecovered = g.unrecovered;
  known = g.known;
}

none_pending : (seq : ℕ) (s : List ℕ) → contains seq s ≡ false → occurrences seq s ≡ 0
none_pending seq s e = ground (arith, contains-occurrences seq s, e)

-- A number that is not there is not taken away.
absent_dropped :
    (r : Receiver) (flow : RxFlow) (seq : ℕ)
    → occurrences seq (pending r flow) ≡ 0
    → (v : ℕ)
    → occurrences v (pending r flow) ≡ occurrences v (pending r flow) - (if v == seq then 1 else 0)
absent_dropped r flow seq none_there v = elim (Bool-cases (v == seq)) [
  | inl same ↦
      let equal : v ≡ seq = (==_iff v seq).0 same in
      let zero_there : occurrences v (pending r flow) ≡ 0 =
        ap (λ j. occurrences j (pending r flow)) equal ∙ none_there in
      omega (arith, zero_there)
  | inr other ↦ rw other (omega arith)
]

-- Without a pending number there is nothing to recover.
kept-IsRecovered :
    (r : Receiver) (flow : RxFlow) (seq : ℕ)
    → IsAccounted r
    → contains seq (pending r flow) ≡ false
    → IsRecovered r r flow seq
kept-IsRecovered r flow seq h absent = record {
  tracker = refl;
  nics = refl;
  planes = refl;
  calls = refl;
  here = λ v.
      absent_dropped r flow seq (none_pending seq (pending r flow) absent) v
      ∙ dropped v seq (occurrences v (pending r flow)) (awaits flow v r.calls) (h.awaited flow v);
  others = λ k other. refl;
  unrecovered = h.unrecovered;
  known = h.known;
}

-- The state in which a pending number has been recovered.
abbrev pub recovered : Receiver → RxFlow → ℕ → List ℕ → TrimCounts → Receiver
recovered r flow seq p c = record r {
  trim_pending = put rx_discrete flow (discard seq p) r.trim_pending;
  trim_stats = put rx_discrete flow (record c { recovered = c.recovered + 1 }) r.trim_stats;
}

recovered-IsRecovered :
    (r : Receiver) (flow : RxFlow) (seq : ℕ) (p : List ℕ) (c : TrimCounts)
    → IsAccounted r
    → find rx_discrete flow r.trim_pending ≡ some p
    → find rx_discrete flow r.trim_stats ≡ some c
    → contains seq p ≡ true
    → IsRecovered r (recovered r flow seq p c) flow seq
recovered-IsRecovered r flow seq p c h at has there =
    let one : TrimCounts = record c { recovered = c.recovered + 1 } in
    let now_pending : pending (recovered r flow seq p c) flow ≡ discard seq p =
      ap or_empty (find-put_of_eq rx_discrete flow flow (discard seq p) r.trim_pending refl) in
    let was_pending : pending r flow ≡ p = ap or_empty at in
    let was_trims : trims r flow ≡ c = ap counts_or_zero has in
    record {
      tracker = refl;
      nics = refl;
      planes = refl;
      calls = refl;
      here = λ v.
          ap (occurrences v) now_pending
          ∙ occurrences-discard v seq p
          ∙ dropped v seq (occurrences v p) (awaits flow v r.calls)
              (ap (occurrences v) (sym was_pending) ∙ h.awaited flow v);
      others = λ k other.
          ap or_empty (find-put_ne rx_discrete k flow (discard seq p) r.trim_pending other);
      unrecovered = λ k. elim (rx_discrete flow k) [
        | yes same ↦
            let then_pending : pending (recovered r flow seq p c) k ≡ discard seq p =
              ap or_empty (find-put_of_eq rx_discrete k flow (discard seq p) r.trim_pending same) in
            let then_trims : trims (recovered r flow seq p c) k ≡ one =
              ap counts_or_zero (find-put_of_eq rx_discrete k flow one r.trim_stats same) in
            let before : c.recovered + length p ≤ c.trimmed =
              rw (← was_pending, ← was_trims) (h.unrecovered flow) in
            rw (then_pending, then_trims) (omega (arith, before, length-discard seq p there))
        | no other ↦
            let then_pending : pending (recovered r flow seq p c) k ≡ pending r k =
              ap or_empty (find-put_ne rx_discrete k flow (discard seq p) r.trim_pending other) in
            let then_trims : trims (recovered r flow seq p c) k ≡ trims r k =
              ap counts_or_zero (find-put_ne rx_discrete k flow one r.trim_stats other) in
            rw (then_pending, then_trims) (h.unrecovered k)
      ];
      known = λ k q found. elim (rx_discrete flow k) [
        | yes same ↦ (one, find-put_of_eq rx_discrete k flow one r.trim_stats same)
        | no other ↦
            let (d, had) =
              h.known k q (
                sym (find-put_ne rx_discrete k flow (discard seq p) r.trim_pending other)
                ∙ found) in
            (d, find-put_ne rx_discrete k flow one r.trim_stats other ∙ had)
      ];
    }

pub recover-IsRecovered :
    (r : Receiver) (flow : RxFlow) (seq : ℕ) (o : Option (List ℕ))
    → IsAccounted r
    → find rx_discrete flow r.trim_pending ≡ o
    → (s : Receiver) × (recover r flow seq o ≡ (s, ok tt)) × IsRecovered r s flow seq
recover-IsRecovered r flow seq none h at =
    (r, refl, kept-IsRecovered r flow seq h (ap (λ q. contains seq (or_empty q)) at))
recover-IsRecovered r flow seq (some p) h at = elim (Bool-cases (contains seq p)) [
  | inl there ↦
      let (c, has) = h.known flow p at in
      let result : recover r flow seq (some p) ≡ (recovered r flow seq p c, ok tt) = rw there (
        ap
          (count_recovered
            (record r { trim_pending = put rx_discrete flow (discard seq p) r.trim_pending }) flow)
          has) in
      (recovered r flow seq p c, result, recovered-IsRecovered r flow seq p c h at has there)
  | inr absent ↦
      let result : recover r flow seq (some p) ≡ (r, ok tt) = rw absent refl in
      (r, result, kept-IsRecovered r flow seq h (ap (λ q. contains seq (or_empty q)) at ∙ absent))
]
