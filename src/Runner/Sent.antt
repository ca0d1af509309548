-- ===== src/Runner/Sent.antt =====
-- srv6_mrc/runner.py: what one emission of the sender counts.
use mathlib.Core.Path.{subst}
use native.Mathlib.Decide.{ℕ_discrete}
use srv6_mrc_emulator.Common.{
  ℕ, ◌+◌, ◌≡◌, ◌∙◌, refl, sym, ap, Bool, true, false, List, [], ◌∷◌, Option, none, some,
  if◌then◌else◌, length, sum_by, arith, Bool-cases, inl, inr, Result, ok, raise, ok-injective,
}
use srv6_mrc_emulator.Common.Dict.{find, put}
use srv6_mrc_emulator.Wire.Defs.{Bytes}
use srv6_mrc_emulator.Topo.Defs.{Text}
use srv6_mrc_emulator.Reorder.Defs.{or_zero, total}
use srv6_mrc_emulator.Reorder.Counts.{bump-total}
use srv6_mrc_emulator.Trim.Defs.{hits, NackListener, note_sent, note_new}
use srv6_mrc_emulator.Runner.Plan.{Plan, Trimming, Sender, ev_discrete}
use srv6_mrc_emulator.Runner.Sender.{
  count_sent, send_payload, send_plain, payload_of, is_trim, count_trimmed, count_dropped, note,
  noted, emit_hit, emit, emit_of,
}

abbrev pub ev_total : List ((ℕ × ℕ) × ℕ) → ℕ
ev_total m = sum_by (λ e. e.1) m

put_ev-total :
    (ev : ℕ × ℕ) (m : List ((ℕ × ℕ) × ℕ))
    → ev_total (put ev_discrete ev (or_zero (find ev_discrete ev m) + 1) m) ≡ ev_total m + 1
unfolding find put
put_ev-total ev [] = omega arith
put_ev-total ev ((j, v) ∷ m) = elim (ev_discrete j ev) [
  | yes same ↦ ground (arith, same)
  | no other ↦ ground (arith, other, put_ev-total ev m)
]

-- The packets that the oracle dropped, and those sent again.
abbrev pub dropped : {G : Type 0} → Option (Trimming G) → ℕ
dropped none = 0
dropped (some t) = t.listener.stats.dropped

abbrev pub resent : {G : Type 0} → Option (Trimming G) → ℕ
resent none = 0
resent (some t) = t.listener.stats.retransmits

note_new-stats : (l : NackListener) (seq : ℕ) (o : Option ℕ) → (note_new l seq o).stats ≡ l.stats
note_new-stats l seq none = refl
note_new-stats l seq (some count) = refl

module _ {P G : Type 0} (plan : Plan P G) where
  abbrev pub if_aware : ℕ → ℕ
  if_aware n = if plan.ev_aware then n else 0

  -- From one state to another one with `n` packets more in the counts, and `w` of them on the wire.
  pub record IsStep (n w : ℕ) (s e : Sender P G) : Type 0 where
    pub planes : total e.per_plane_sent ≡ total s.per_plane_sent + n
    pub evs : ev_total e.per_ev_sent ≡ ev_total s.per_ev_sent + if_aware n
    pub wires : length e.wire ≡ length s.wire + w
    pub attempts : e.attempts + (length s.wire + s.errors) ≡ s.attempts + (length e.wire + e.errors)
    pub sent : e.sent ≡ s.sent
    pub seq : e.seq ≡ s.seq

  abbrev pub one_if : Bool → ℕ
  one_if true = 1
  one_if false = 0

  count_sent-evs :
      (s : Sender P G) (plane path : ℕ)
      → ev_total (count_sent plan s plane path).per_ev_sent ≡ ev_total s.per_ev_sent + if_aware 1
  count_sent-evs s plane path = elim (Bool-cases plan.ev_aware) [
    | inl aware ↦ rw aware (put_ev-total (plane, path) s.per_ev_sent)
    | inr unaware ↦ rw unaware (omega arith)
  ]

  if_aware_zero : if_aware 0 ≡ 0
  if_aware_zero = elim (Bool-cases plan.ev_aware) [
    | inl aware ↦ rw aware refl
    | inr unaware ↦ rw unaware refl
  ]

  -- What a send gives: one packet in the counts and on the wire, or an error.
  abbrev pub Sends : Sender P G → Sender P G × Bool → Type 0
  Sends s (e, b) =
      (e.trimming ≡ s.trimming)
      × (IsStep (one_if b) (one_if b) s e × (e.errors + one_if b ≡ s.errors + 1))

  pub send_payload-Sends :
      (s : Sender P G) (seq plane path : ℕ) (outer : Text) (payload : Result Bytes)
      (done : Sender P G × Bool)
      → send_payload plan s seq plane path outer payload ≡ ok done
      → Sends s done
  send_payload-Sends s seq plane path outer (raise x) done h = absurd cc
  send_payload-Sends s seq plane path outer (ok payload) done h =
      elim (Bool-cases (plan.works s.attempts)) [
        | inl works ↦ subst (Sends s) (ok-injective _ done (rw works at h)) (
          refl,
          (
            record {
              planes = bump-total plane s.per_plane_sent;
              evs = count_sent-evs s plane path;
              wires = omega arith;
              attempts = omega arith;
              sent = refl;
              seq = refl;
            },
            refl,
          ),
        )
        | inr fails ↦ subst (Sends s) (ok-injective _ done (rw fails at h)) (
          refl,
          (
            record {
              planes = omega arith;
              evs = omega (arith, if_aware_zero);
              wires = omega arith;
              attempts = omega arith;
              sent = refl;
              seq = refl;
            },
            omega arith,
          ),
        )
      ]

  -- What an emission gives, with trimming or without: a packet in the counts is on the wire or dropped.
  pub record Emits (s : Sender P G) (done : Sender P G × Bool) : Type 0 where
    pub on_wire : ℕ
    pub step : IsStep (one_if done.1) on_wire s done.0
    pub drops : dropped done.0.trimming + on_wire ≡ dropped s.trimming + one_if done.1
    pub resends : resent done.0.trimming ≡ resent s.trimming
    pub errors : done.0.errors + one_if done.1 ≡ s.errors + 1
    pub off : s.trimming ≡ none → done.0.trimming ≡ none
    pub on : (t : Trimming G) → s.trimming ≡ some t → (u : Trimming G) × (done.0.trimming ≡ some u)

  not_off : {o : Option (Trimming G)} {t : Trimming G} {A : Type 0} → o ≡ some t → o ≡ none → A
  not_off on off = absurd cc

  -- Noting a send changes none of the statistics.
  note-stats : (seq : ℕ) (t : Trimming G) → (note plan seq t).listener.stats ≡ t.listener.stats
  unfolding note_sent
  note-stats seq t = note_new-stats t.listener seq (find ℕ_discrete seq t.listener.recent)

  -- A send through the oracle that leaves the oracle's counts as they were before it.
  noted_send-Emits :
      (s : Sender P G) (t u : Trimming G) (seq : ℕ) (sent : Result (Sender P G × Bool))
      (done : Sender P G × Bool)
      → s.trimming ≡ some t
      → dropped (some u) ≡ dropped (some t)
      → resent (some u) ≡ resent (some t)
      → ((inner : Sender P G × Bool) → sent ≡ ok inner → Sends s inner)
      → noted plan seq u sent ≡ ok done
      → Emits s done
  noted_send-Emits s t u seq (raise e) done on d r sends h = absurd cc
  noted_send-Emits s t u seq (ok (e, true)) done on d r sends h =
      let (same, (step, errors)) = sends (e, true) refl in
      let stats = note-stats seq u in
      subst (Emits s) (ok-injective _ done h) (record {
        on_wire = 1;
        step = record {
          planes = step.planes;
          evs = step.evs;
          wires = step.wires;
          attempts = step.attempts;
          sent = step.sent;
          seq = step.seq;
        };
        drops = omega (arith, ap (λ x. x.dropped) stats, d, ap dropped on);
        resends = ap (λ x. x.retransmits) stats ∙ r ∙ ap resent (sym on);
        errors = errors;
        off = not_off on;
        on = λ v at. (note plan seq u, refl);
      })
  noted_send-Emits s t u seq (ok (e, false)) done on d r sends h =
      let (same, (step, errors)) = sends (e, false) refl in
      subst (Emits s) (ok-injective _ done h) (record {
        on_wire = 0;
        step = record {
          planes = step.planes;
          evs = step.evs;
          wires = step.wires;
          attempts = step.attempts;
          sent = step.sent;
          seq = step.seq;
        };
        drops = omega (arith, d, ap dropped on);
        resends = r ∙ ap resent (sym on);
        errors = errors;
        off = not_off on;
        on = λ v at. (u, refl);
      })

  emit_hit-Emits :
      (s : Sender P G) (t u : Trimming G) (seq plane path : ℕ) (outer : Text) (hit : Bool)
      (done : Sender P G × Bool)
      → s.trimming ≡ some t
      → dropped (some u) ≡ dropped (some t)
      → resent (some u) ≡ resent (some t)
      → emit_hit plan s u seq plane path outer hit ≡ ok done
      → Emits s done
  emit_hit-Emits s t u seq plane path outer false done on d r h =
      noted_send-Emits s t u seq
        (send_payload plan s seq plane path outer (payload_of plan false seq plane path)) done on d
        r (send_payload-Sends s seq plane path outer (payload_of plan false seq plane path)) h
  emit_hit-Emits s t u seq plane path outer true done on d r h =
      elim (Bool-cases (is_trim plan u.spec.mode)) [
        | inl trims ↦
            noted_send-Emits s t (count_trimmed plan u) seq
              (send_payload plan s seq plane path outer (payload_of plan true seq plane path)) done
              on d r
              (send_payload-Sends s seq plane path outer (payload_of plan true seq plane path))
              (rw trims at h)
        | inr drops ↦
            let stats = note-stats seq (count_dropped plan u) in
            subst (Emits s) (ok-injective _ done (rw drops at h)) (record {
              on_wire = 0;
              step = record {
                planes = bump-total plane s.per_plane_sent;
                evs = count_sent-evs s plane path;
                wires = omega arith;
                attempts = omega arith;
                sent = refl;
                seq = refl;
              };
              drops = omega (arith, ap (λ x. x.dropped) stats, d, ap dropped on);
              resends = ap (λ x. x.retransmits) stats ∙ r ∙ ap resent (sym on);
              errors = refl;
              off = not_off on;
              on = λ v at. (note plan seq (count_dropped plan u), refl);
            })
      ]

  pub emit_of-Emits :
      (s : Sender P G) (trimming : Option (Trimming G)) (seq plane path : ℕ) (outer : Text)
      (done : Sender P G × Bool)
      → s.trimming ≡ trimming
      → emit_of plan s trimming seq plane path outer ≡ ok done
      → Emits s done
  unfolding emit send_plain
  emit_of-Emits s none seq plane path outer (e, b) on h =
      let (same, (step, errors)) =
        send_payload-Sends s seq plane path outer (payload_of plan false seq plane path) (e, b) h in
      record {
        on_wire = one_if b;
        step = step;
        drops = ap (λ t. dropped t + one_if b) same;
        resends = ap resent same;
        errors = errors;
        off = λ off. same ∙ off;
        on = λ t at. (t, same ∙ at);
      }
  emit_of-Emits s (some t) seq plane path outer done on h =
      let drawn = hits plan.random t.spec t.rng plane path in
      emit_hit-Emits s t (record t { rng = drawn.1 }) seq plane path outer drawn.0 done on refl refl
        h
