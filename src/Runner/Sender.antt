-- ===== src/Runner/Sender.antt =====
-- srv6_mrc/runner.py: `run_sender`. The policy is an interface with a state of its own; the generator of the trim oracle
-- and whether a `sendto` works are parameters. What scapy wraps around the MRC payload is left out of a sent packet.
use srv6_mrc_emulator.Common.{
  ℕ, zero, suc, ◌+◌, Bool, true, false, not, List, [], ◌∷◌, Option, none, some, ltb, ◌==◌,
  if◌then◌else◌, foldl, same_cell, Result, ok, raise, guard, ◌>>◌, ◌>>=◌, value_error, key_error,
  runtime_error,
}
use srv6_mrc_emulator.Wire.Defs.{Bytes}
use srv6_mrc_emulator.Topo.Defs.{Text}
use srv6_mrc_emulator.Topo.Addresses.{usid_outer_dst, inner_addr, host_underlay_addr}
use srv6_mrc_emulator.Reorder.Defs.{bump}
use srv6_mrc_emulator.Trim.Defs.{
  Mode, trim_mode, hits, NackListener, Request, note_sent, take_requests, receive_nack,
}
use srv6_mrc_emulator.Runner.Frame.{pack_header, encode_payload}
use srv6_mrc_emulator.Runner.Plan.{Plan, Trimming, Sender, bump_ev, spine_for}

module _ {P G : Type 0} (plan : Plan P G) where
  -- The spine of a policy that chooses planes alone.
  abbrev pub spine : ℕ
  spine = spine_for plan.fabric plan.src_id plan.dst_id

  abbrev pub with_spine : ℕ × P → (ℕ × ℕ) × P
  with_spine (plane, policy) = ((plane, spine), policy)

  unfoldable pub next_ev : P → ℕ → (ℕ × ℕ) × P
  next_ev policy seq =
      if plan.ev_aware then plan.pick_ev policy seq else with_spine (plan.pick policy seq)

  abbrev pub usid : ℕ → ℕ → Result Text
  usid plane ev_spine =
      usid_outer_dst plan.fabric plan.tenant plane ev_spine plan.dst_id plan.sid_mode

  -- The checks of every plane, before the first packet.
  unfoldable pub check_planes : ℕ → Result (Unit {0})
  check_planes zero = ok tt
  check_planes (suc p) = do
    check_planes p
    underlay ← host_underlay_addr plan.fabric plan.tenant p plan.src_id
    outer ← usid p spine
    ok tt

  -- resolve: for a policy without EVs a plane's entry of `plane_meta`.
  unfoldable pub resolve : ℕ → ℕ → Result Text
  resolve plane ev_spine =
      if plan.ev_aware
      then usid plane ev_spine
      else if ltb plane plan.fabric.shape.num_planes
      then usid plane spine
      else raise key_error

  -- The loop over k, with `n` turns left after this one.
  unfoldable pub other_ev : ℕ → ℕ → P → ℕ → ℕ × ℕ → (ℕ × ℕ) × P
  other_ev zero k policy seq avoid = next_ev policy (seq + k)
  other_ev (suc n) k policy seq avoid =
      let (ev, policy') = next_ev policy (seq + k) in
      let rest = other_ev n (k + 1) policy' seq avoid in
      if same_cell ev.0 ev.1 avoid.0 avoid.1 then rest else (ev, policy')

  unfoldable pub pick_other_ev : P → ℕ → ℕ × ℕ → (ℕ × ℕ) × P
  pick_other_ev policy seq avoid = other_ev 7 1 policy seq avoid

  abbrev pub payload_of : Bool → ℕ → ℕ → ℕ → Result Bytes
  payload_of true seq plane path = pack_header seq plane path
  payload_of false seq plane path = encode_payload seq plane path

  -- The counts of a packet that was sent or dropped.
  abbrev pub count_sent : Sender P G → ℕ → ℕ → Sender P G
  count_sent s plane path = record s {
    per_plane_sent = bump plane s.per_plane_sent;
    per_ev_sent = if plan.ev_aware then bump_ev (plane, path) s.per_ev_sent else s.per_ev_sent;
  }

  -- sockets[plane].sendto
  abbrev pub send_payload :
      Sender P G → ℕ → ℕ → ℕ → Text → Result Bytes → Result (Sender P G × Bool)
  send_payload s seq plane path outer (raise e) = raise e
  send_payload s seq plane path outer (ok payload) =
      if plan.works s.attempts
      then ok (
        record (count_sent s plane path) {
          attempts = s.attempts + 1;
          wire =
              record { seq = seq; plane = plane; path = path; outer = outer; payload = payload }
              ∷ s.wire;
        },
        true,
      )
      else ok (record s { attempts = s.attempts + 1; errors = s.errors + 1 }, false)

  -- A new packet without trimming.
  unfoldable pub send_plain : Sender P G → ℕ → ℕ → ℕ → Text → Result (Sender P G × Bool)
  send_plain s seq plane path outer =
      send_payload s seq plane path outer (payload_of false seq plane path)

  abbrev pub count_trimmed : Trimming G → Trimming G
  count_trimmed t = record t {
    listener = record (t.listener) {
      stats = record (t.listener.stats) { trimmed = t.listener.stats.trimmed + 1 };
    };
  }

  abbrev pub count_dropped : Trimming G → Trimming G
  count_dropped t = record t {
    listener = record (t.listener) {
      stats = record (t.listener.stats) { dropped = t.listener.stats.dropped + 1 };
    };
  }

  abbrev pub is_trim : Mode → Bool
  is_trim trim_mode = true
  is_trim _ = false

  abbrev pub note : ℕ → Trimming G → Trimming G
  note seq t = record t { listener = note_sent t.listener seq }

  -- nack_listener.note_sent(seq), after a send that worked.
  abbrev pub noted : ℕ → Trimming G → Result (Sender P G × Bool) → Result (Sender P G × Bool)
  noted seq t (ok (s, true)) = ok (record s { trimming = some (note seq t) }, true)
  noted seq t (ok (s, false)) = ok (record s { trimming = some t }, false)
  noted seq t (raise e) = raise e

  -- emit, with the oracle's answer.
  abbrev pub emit_hit :
      Sender P G → Trimming G → ℕ → ℕ → ℕ → Text → Bool → Result (Sender P G × Bool)
  emit_hit s t seq plane path outer false =
      noted seq t (send_payload s seq plane path outer (payload_of false seq plane path))
  emit_hit s t seq plane path outer true =
      if is_trim t.spec.mode
      then noted seq (count_trimmed t)
          (send_payload s seq plane path outer (payload_of true seq plane path))
      else noted seq (count_dropped t) (ok (count_sent s plane path, true))

  unfoldable pub emit : Sender P G → Trimming G → ℕ → ℕ → ℕ → Text → Result (Sender P G × Bool)
  emit s t seq plane path outer =
      let (hit, rng) = hits plan.random t.spec t.rng plane path in
      emit_hit s (record t { rng = rng }) seq plane path outer hit

  abbrev pub count_retransmit : Sender P G → Sender P G
  count_retransmit s = elim (s.trimming) [
    | none ↦ s
    | some t ↦ record s {
      trimming = some (record t {
        listener = record (t.listener) {
          stats = record (t.listener.stats) { retransmits = t.listener.stats.retransmits + 1 };
        };
      });
    }
  ]

  abbrev pub after_retransmit : Sender P G × Bool → Sender P G
  after_retransmit (s, true) = count_retransmit s
  after_retransmit (s, false) = s

  abbrev pub emit_of :
      Sender P G → Option (Trimming G) → ℕ → ℕ → ℕ → Text → Result (Sender P G × Bool)
  emit_of s none seq plane path outer = send_plain s seq plane path outer
  emit_of s (some t) seq plane path outer = emit s t seq plane path outer

  -- One request of `retransmit_nacked`.
  unfoldable pub retransmit : Sender P G → Request → Result (Sender P G)
  retransmit s r = do
    let (ev, policy) = pick_other_ev s.policy r.seq (r.plane, r.path)
    outer ← resolve ev.0 ev.1
    done ← emit_of (record s { policy = policy }) s.trimming r.seq ev.0 ev.1 outer
    ok (after_retransmit done)

  unfoldable pub retransmits : Sender P G → List Request → Result (Sender P G)
  retransmits s [] = ok s
  retransmits s (r ∷ rs) = retransmit s r >>= λ next. retransmits next rs

  abbrev pub retransmit_taken :
      Sender P G → Trimming G → List Request × NackListener → Result (Sender P G)
  retransmit_taken s t (rs, listener) =
      retransmits (record s { trimming = some (record t { listener = listener }) }) rs

  unfoldable pub retransmit_nacked : Sender P G → Result (Sender P G)
  retransmit_nacked s = elim (s.trimming) [
    | none ↦ ok s
    | some t ↦ retransmit_taken s t (take_requests t.listener)
  ]

  -- A new packet, sent or not.
  abbrev pub after_new : Sender P G × Bool → Sender P G
  after_new (s, true) = record s { sent = s.sent + 1; seq = s.seq + 1 }
  after_new (s, false) = record s { seq = s.seq + 1 }

  unfoldable pub send_new : Sender P G → Result (Sender P G)
  send_new s = do
    let (ev, policy) = next_ev s.policy s.seq
    guard (ltb (ev.0) plan.fabric.shape.num_planes) runtime_error
    outer ← resolve ev.0 ev.1
    done ← emit_of (record s { policy = policy }) s.trimming s.seq ev.0 ev.1 outer
    ok (after_new done)

  -- The NACKs that the listener's thread has received since the last turn.
  abbrev pub receive_all : List Bytes → Sender P G → Sender P G
  receive_all payloads s = elim (s.trimming) [
    | none ↦ s
    | some t ↦ record s {
      trimming = some (record t { listener = foldl receive_nack t.listener payloads });
    }
  ]

  -- One turn of the loop.
  unfoldable pub turn : Sender P G → List Bytes → Result (Sender P G)
  turn s payloads = retransmit_nacked (receive_all payloads s) >>= send_new

  unfoldable pub turns : Sender P G → List (List Bytes) → Result (Sender P G)
  turns s [] = ok s
  turns s (payloads ∷ rest) = turn s payloads >>= λ next. turns next rest

  -- After the last new packet.
  unfoldable pub drain : Sender P G → List (List Bytes) → Result (Sender P G)
  drain s [] = ok s
  drain s (payloads ∷ rest) = retransmit_nacked (receive_all payloads s) >>= λ next. drain next rest

  abbrev pub fresh : P → Option (Trimming G) → Sender P G
  fresh policy trimming = record {
    policy = policy;
    seq = 0;
    sent = 0;
    errors = 0;
    per_plane_sent = [];
    per_ev_sent = [];
    trimming = trimming;
    attempts = 0;
    wire = [];
  }

  -- `drained` is none for a run that was stopped.
  unfoldable pub run_sender :
      P → Option (Trimming G) → List (List Bytes) → List (List Bytes) → Result (Sender P G)
  run_sender policy trimming batches drained = do
    guard (not (plan.src_id == plan.dst_id)) value_error
    src ← inner_addr plan.fabric plan.tenant plan.src_id
    dst ← inner_addr plan.fabric plan.tenant plan.dst_id
    check_planes plan.fabric.shape.num_planes
    s ← turns (fresh policy trimming) batches
    drain s drained
