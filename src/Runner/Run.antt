-- ===== src/Runner/Run.antt =====
-- srv6_mrc/runner.py: the counts of a whole run of the sender.
use mathlib.Core.Path.{subst}
use srv6_mrc_emulator.Common.{
  ℕ, ◌+◌, ◌≤◌, ◌≡◌, ◌∙◌, refl, sym, ap, Bool, true, false, not, List, [], ◌∷◌, Option, none, some,
  Option-cases, ltb, leb, ◌==◌, if◌then◌else◌, length, arith, Bool-cases, inl, inr, foldl, Result,
  ok, raise, guard, ok-injective, >>=-eq-ok, value_error, runtime_error,
}
use srv6_mrc_emulator.Wire.Defs.{Bytes, Nack, decode_nack}
use srv6_mrc_emulator.Topo.Addresses.{inner_addr}
use srv6_mrc_emulator.Reorder.Defs.{total}
use srv6_mrc_emulator.Trim.Defs.{
  NackListener, Request, on_nack, request, count_received, handle_nack, receive_nack, take_requests,
}
use srv6_mrc_emulator.Runner.Plan.{Plan, Trimming, Sender}
use srv6_mrc_emulator.Runner.Sender.{
  next_ev, pick_other_ev, resolve, emit_of, count_retransmit, after_retransmit, retransmit,
  retransmits, retransmit_nacked, after_new, send_new, receive_all, turn, turns, drain, fresh,
  check_planes, run_sender,
}
use srv6_mrc_emulator.Runner.Sent.{
  ev_total, dropped, resent, if_aware, one_if, Emits, emit_of-Emits,
}

request-stats :
    (l : NackListener) (r : Request) (o : Option ℕ)
    → ((request l r o).stats.dropped ≡ l.stats.dropped)
      × ((request l r o).stats.retransmits ≡ l.stats.retransmits)
request-stats l r none = (refl, refl)
request-stats l r (some count) = elim (Bool-cases (leb l.max_retransmits count)) [
  | inl spent ↦ rw spent (refl, refl)
  | inr left ↦ rw left (refl, refl)
]

handle_nack-stats :
    (l : NackListener) (n : Result Nack)
    → ((handle_nack l n).stats.dropped ≡ l.stats.dropped)
      × ((handle_nack l n).stats.retransmits ≡ l.stats.retransmits)
unfolding on_nack
handle_nack-stats l (raise e) = (refl, refl)
handle_nack-stats l (ok n) =
    request-stats (count_received l) (record { seq = n.seq; plane = n.plane_id; path = n.path_id })
      _

-- A trimming state with NACKs received.
abbrev heard : {G : Type 0} → List Bytes → Trimming G → Trimming G
heard payloads t = record t { listener = foldl receive_nack t.listener payloads }

module _ {P G : Type 0} (plan : Plan P G) (started : Option (Trimming G)) where
  -- What the counts are in `seq` turns: a packet, new or again, is counted once by plane and once by EV, and is on the
  -- wire unless the oracle dropped it.
  pub record IsCounted (s : Sender P G) : Type 0 where
    pub planes : total s.per_plane_sent + resent started ≡ s.sent + resent s.trimming
    pub evs : ev_total s.per_ev_sent ≡ (if plan.ev_aware then total s.per_plane_sent else 0)
    pub wires : length s.wire + dropped s.trimming ≡ total s.per_plane_sent + dropped started
    pub attempts : s.attempts ≡ length s.wire + s.errors
    pub at_most : s.sent ≤ s.seq
    pub at_least : s.seq ≤ s.sent + s.errors
    pub off : started ≡ none → (s.trimming ≡ none) × (s.sent + s.errors ≡ s.seq)

  aware_add :
      (a b n : ℕ)
      → a ≡ (if plan.ev_aware then b else 0)
      → a + if_aware plan n ≡ (if plan.ev_aware then b + n else 0)
  aware_add a b n h = elim (Bool-cases plan.ev_aware) [
    | inl aware ↦ rw aware (ap (λ x. x + n) (rw aware at h))
    | inr unaware ↦ rw unaware (ap (λ x. x + 0) (rw unaware at h))
  ]

  -- The counts of a state after an emission, before the caller counts it too.
  evs_after :
      (s : Sender P G) (done : Sender P G × Bool)
      → IsCounted s
      → Emits plan s done
      → ev_total done.0.per_ev_sent ≡ (if plan.ev_aware then total done.0.per_plane_sent else 0)
  evs_after s done h g =
      g.step.evs
      ∙ aware_add (ev_total s.per_ev_sent) (total s.per_plane_sent) (one_if plan done.1) h.evs
      ∙ ap (λ n. if plan.ev_aware then n else 0) (sym g.step.planes)

  after_new-IsCounted :
      (s : Sender P G) (done : Sender P G × Bool)
      → IsCounted s
      → Emits plan s done
      → IsCounted (after_new plan done)
  after_new-IsCounted s (e, true) h g = record {
    planes = omega (arith, g.step.planes, g.step.sent, g.resends, h.planes);
    evs = evs_after s (e, true) h g;
    wires = omega (arith, g.step.planes, g.step.wires, g.drops, h.wires);
    attempts = omega (arith, g.step.attempts, h.attempts);
    at_most = omega (arith, g.step.sent, g.step.seq, h.at_most);
    at_least = omega (arith, g.step.sent, g.step.seq, g.errors, h.at_least);
    off = λ none_started.
        let (off, all) = h.off none_started in
        (g.off off, omega (arith, g.step.sent, g.step.seq, g.errors, all));
  }
  after_new-IsCounted s (e, false) h g = record {
    planes = omega (arith, g.step.planes, g.step.sent, g.resends, h.planes);
    evs = evs_after s (e, false) h g;
    wires = omega (arith, g.step.planes, g.step.wires, g.drops, h.wires);
    attempts = omega (arith, g.step.attempts, h.attempts);
    at_most = omega (arith, g.step.sent, g.step.seq, h.at_most);
    at_least = omega (arith, g.step.sent, g.step.seq, g.errors, h.at_least);
    off = λ none_started.
        let (off, all) = h.off none_started in
        (g.off off, omega (arith, g.step.sent, g.step.seq, g.errors, all));
  }

  -- A step that only a run with trimming takes.
  record IsOn (s : Sender P G) : Type 0 where
    counted : IsCounted s
    state : Trimming G
    on : s.trimming ≡ some state

  not_started :
      {A : Type 0} (s : Sender P G) (t : Trimming G)
      → IsCounted s
      → s.trimming ≡ some t
      → started ≡ none
      → A
  not_started s t h on none_started = let off = (h.off none_started).0 in absurd cc

  abbrev resent_once : Trimming G → Trimming G
  resent_once t = record t {
    listener = record (t.listener) {
      stats = record (t.listener.stats) { retransmits = t.listener.stats.retransmits + 1 };
    };
  }

  count_retransmit-on :
      (e : Sender P G) (u : Trimming G)
      → e.trimming ≡ some u
      → count_retransmit plan e ≡ record e { trimming = some (resent_once u) }
  count_retransmit-on e u on = rw on refl

  after_retransmit-IsOn :
      (s : Sender P G) (done : Sender P G × Bool)
      → IsOn s
      → Emits plan s done
      → IsOn (after_retransmit plan done)
  after_retransmit-IsOn s (e, true) h g =
      let (u, on) = g.on h.state h.on in
      let c = h.counted in
      let resends = ap resent on in
      let drops = ap dropped on in
      subst IsOn (sym (count_retransmit-on e u on)) (record {
        counted = record {
          planes = omega (arith, g.step.planes, g.step.sent, g.resends, resends, c.planes);
          evs = evs_after s (e, true) c g;
          wires = omega (arith, g.step.planes, g.step.wires, g.drops, drops, c.wires);
          attempts = omega (arith, g.step.attempts, c.attempts);
          at_most = omega (arith, g.step.sent, g.step.seq, c.at_most);
          at_least = omega (arith, g.step.sent, g.step.seq, g.errors, c.at_least);
          off = not_started s h.state c h.on;
        };
        state = resent_once u;
        on = refl;
      })
  after_retransmit-IsOn s (e, false) h g =
      let (u, on) = g.on h.state h.on in
      let c = h.counted in
      record {
        counted = record {
          planes = omega (arith, g.step.planes, g.step.sent, g.resends, c.planes);
          evs = evs_after s (e, false) c g;
          wires = omega (arith, g.step.planes, g.step.wires, g.drops, c.wires);
          attempts = omega (arith, g.step.attempts, c.attempts);
          at_most = omega (arith, g.step.sent, g.step.seq, c.at_most);
          at_least = omega (arith, g.step.sent, g.step.seq, g.errors, c.at_least);
          off = not_started s h.state c h.on;
        };
        state = u;
        on = on;
      }

  -- Another state of the policy, and another queue of the listener.
  repoliced : (s : Sender P G) (policy : P) → IsCounted s → IsCounted (record s { policy = policy })
  repoliced s policy h = record {
    planes = h.planes;
    evs = h.evs;
    wires = h.wires;
    attempts = h.attempts;
    at_most = h.at_most;
    at_least = h.at_least;
    off = h.off;
  }

  relistened :
      (s : Sender P G) (t u : Trimming G)
      → IsCounted s
      → s.trimming ≡ some t
      → dropped (some u) ≡ dropped (some t)
      → resent (some u) ≡ resent (some t)
      → IsCounted (record s { trimming = some u })
  relistened s t u h on drops resends = record {
    planes = omega (arith, h.planes, ap resent on, resends);
    evs = h.evs;
    wires = omega (arith, h.wires, ap dropped on, drops);
    attempts = h.attempts;
    at_most = h.at_most;
    at_least = h.at_least;
    off = not_started s t h on;
  }

  retransmit-IsOn : (s e : Sender P G) (r : Request) → IsOn s → retransmit plan s r ≡ ok e → IsOn e
  unfolding retransmit
  retransmit-IsOn s e r h k =
      let picked = pick_other_ev plan s.policy r.seq (r.plane, r.path) in
      let s' = record s { policy = picked.1 } in
      let (outer, resolved, k1) = >>=-eq-ok (resolve plan picked.0.0 picked.0.1) _ k in
      let (done, emitted, k2) =
        >>=-eq-ok (emit_of plan s' s.trimming r.seq picked.0.0 picked.0.1 outer) _ k1 in
      let g =
        emit_of-Emits plan s' s.trimming r.seq picked.0.0 picked.0.1 outer done refl emitted in
      subst IsOn (ok-injective _ e k2) (
        after_retransmit-IsOn s' done
          (record { counted = repoliced s picked.1 h.counted; state = h.state; on = h.on }) g)

  retransmits-IsOn :
      (rs : List Request) (s e : Sender P G) → IsOn s → retransmits plan s rs ≡ ok e → IsOn e
  unfolding retransmits
  retransmits-IsOn [] s e h k = subst IsOn (ok-injective s e k) h
  retransmits-IsOn (r ∷ rs) s e h k =
      let (next, first, k1) = >>=-eq-ok (retransmit plan s r) _ k in
      retransmits-IsOn rs next e (retransmit-IsOn s next r h first) k1

  pub nacked_off : (s : Sender P G) → s.trimming ≡ none → retransmit_nacked plan s ≡ ok s
  unfolding retransmit_nacked
  nacked_off s off = rw off refl

  retransmit_nacked-IsCounted :
      (s e : Sender P G) (o : Option (Trimming G))
      → s.trimming ≡ o
      → IsCounted s
      → retransmit_nacked plan s ≡ ok e
      → IsCounted e
  unfolding retransmit_nacked take_requests
  retransmit_nacked-IsCounted s e none on h k =
      subst IsCounted (ok-injective s e (sym (nacked_off s on) ∙ k)) h
  retransmit_nacked-IsCounted s e (some t) on h k =
      let emptied = record t { listener = record (t.listener) { queue = [] } } in
      let start = relistened s t emptied h on refl refl in
      (retransmits-IsOn t.listener.queue _ e
        (record { counted = start; state = emptied; on = refl }) (rw on at k)).counted

  receive_nack-stats :
      (l : NackListener) (payload : Bytes)
      → ((receive_nack l payload).stats.dropped ≡ l.stats.dropped)
        × ((receive_nack l payload).stats.retransmits ≡ l.stats.retransmits)
  unfolding receive_nack
  receive_nack-stats l payload = handle_nack-stats l (decode_nack payload)

  receive_nacks-stats :
      (payloads : List Bytes) (l : NackListener)
      → ((foldl receive_nack l payloads).stats.dropped ≡ l.stats.dropped)
        × ((foldl receive_nack l payloads).stats.retransmits ≡ l.stats.retransmits)
  receive_nacks-stats [] l = (refl, refl)
  receive_nacks-stats (payload ∷ payloads) l =
      let (d, r) = receive_nack-stats l payload in
      let (ds, rs) = receive_nacks-stats payloads (receive_nack l payload) in (ds ∙ d, rs ∙ r)

  pub received_off :
      (payloads : List Bytes) (s : Sender P G) → s.trimming ≡ none → receive_all plan payloads s ≡ s
  received_off payloads s off = rw off refl

  received_on :
      (payloads : List Bytes) (s : Sender P G) (t : Trimming G)
      → s.trimming ≡ some t
      → receive_all plan payloads s ≡ record s { trimming = some (heard payloads t) }
  received_on payloads s t on = rw on refl

  receive_all-IsCounted :
      (payloads : List Bytes) (s : Sender P G)
      → IsCounted s
      → IsCounted (receive_all plan payloads s)
  receive_all-IsCounted payloads s h = elim (Option-cases s.trimming) [
    | inl off ↦ subst IsCounted (sym (received_off payloads s off)) h
    | inr (t, on) ↦
        let (d, r) = receive_nacks-stats payloads t.listener in
        subst IsCounted (sym (received_on payloads s t on))
          (relistened s t (heard payloads t) h on d r)
  ]

  send_new-IsCounted : (s e : Sender P G) → IsCounted s → send_new plan s ≡ ok e → IsCounted e
  unfolding send_new
  send_new-IsCounted s e h k =
      let picked = next_ev plan s.policy s.seq in
      let s' = record s { policy = picked.1 } in
      let (u, in_range, k1) =
        >>=-eq-ok (guard (ltb picked.0.0 plan.fabric.shape.num_planes) runtime_error) _ k in
      let (outer, resolved, k2) = >>=-eq-ok (resolve plan picked.0.0 picked.0.1) _ k1 in
      let (done, emitted, k3) =
        >>=-eq-ok (emit_of plan s' s.trimming s.seq picked.0.0 picked.0.1 outer) _ k2 in
      let g =
        emit_of-Emits plan s' s.trimming s.seq picked.0.0 picked.0.1 outer done refl emitted in
      subst IsCounted (ok-injective _ e k3) (after_new-IsCounted s' done (repoliced s picked.1 h) g)

  turns-IsCounted :
      (batches : List (List Bytes)) (s e : Sender P G)
      → IsCounted s
      → turns plan s batches ≡ ok e
      → IsCounted e
  unfolding turns turn
  turns-IsCounted [] s e h k = subst IsCounted (ok-injective s e k) h
  turns-IsCounted (payloads ∷ rest) s e h k =
      let (next, first, k1) = >>=-eq-ok (turn plan s payloads) _ k in
      let (caught, again, k2) =
        >>=-eq-ok (retransmit_nacked plan (receive_all plan payloads s)) _ first in
      let answered =
        retransmit_nacked-IsCounted (receive_all plan payloads s) caught _ refl
          (receive_all-IsCounted payloads s h) again in
      turns-IsCounted rest next e (send_new-IsCounted caught next answered k2) k1

  drain-IsCounted :
      (batches : List (List Bytes)) (s e : Sender P G)
      → IsCounted s
      → drain plan s batches ≡ ok e
      → IsCounted e
  unfolding drain
  drain-IsCounted [] s e h k = subst IsCounted (ok-injective s e k) h
  drain-IsCounted (payloads ∷ rest) s e h k =
      let (next, again, k1) =
        >>=-eq-ok (retransmit_nacked plan (receive_all plan payloads s)) _ k in
      drain-IsCounted rest next e
        (retransmit_nacked-IsCounted (receive_all plan payloads s) next _ refl
          (receive_all-IsCounted payloads s h) again)
        k1

  fresh-IsCounted : (policy : P) → IsCounted (fresh plan policy started)
  fresh-IsCounted policy = record {
    planes = refl;
    evs = elim (Bool-cases plan.ev_aware) [
      | inl aware ↦ rw aware refl
      | inr unaware ↦ rw unaware refl
    ];
    wires = refl;
    attempts = refl;
    at_most = omega arith;
    at_least = omega arith;
    off = λ none_started. (none_started, refl);
  }

  -- A run that ends, with any policy, any NACKs and any failing sends: a packet that was sent, new or again, is counted
  -- once by plane and, if the policy chooses EVs, once by EV, and went on the wire unless the oracle dropped it; every
  -- `sendto` either put a packet on the wire or is an error; every turn's packet is among those sent or is an error,
  -- and without trimming exactly so.
  pub run_sender-IsCounted :
      (policy : P) (batches drained : List (List Bytes)) (e : Sender P G)
      → run_sender plan policy started batches drained ≡ ok e
      → IsCounted e
  unfolding run_sender
  run_sender-IsCounted policy batches drained e k =
      let (u, differ, k1) = >>=-eq-ok (guard (not (plan.src_id == plan.dst_id)) value_error) _ k in
      let (src, a, k2) = >>=-eq-ok (inner_addr plan.fabric plan.tenant plan.src_id) _ k1 in
      let (dst, b, k3) = >>=-eq-ok (inner_addr plan.fabric plan.tenant plan.dst_id) _ k2 in
      let (v, checked, k4) = >>=-eq-ok (check_planes plan plan.fabric.shape.num_planes) _ k3 in
      let (sent, ran, k5) = >>=-eq-ok (turns plan (fresh plan policy started) batches) _ k4 in
      drain-IsCounted drained sent e (turns-IsCounted batches _ sent (fresh-IsCounted policy) ran)
        k5
