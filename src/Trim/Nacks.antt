-- ===== src/Trim/Nacks.antt =====
-- srv6_mrc/trim.py: how often a packet can be retransmitted.
use native.Mathlib.Decide.{ℕ_discrete}
use srv6_mrc_emulator.Common.{
  ℕ, suc, ◌+◌, ◌-◌, ◌≡◌, inl, inr, Bool, List, [], ◌∷◌, ◌++◌, foldl, leb, ◌==◌, if◌then◌else◌,
  arith, length, length-append, sum_by, count_if, Option-cases, Bool-cases,
}
use srv6_mrc_emulator.Common.Dict.{find}
use srv6_mrc_emulator.Trim.Defs.{
  NackListener, Request, new_listener, no_stats, note_sent, on_nack, take_requests,
}

-- What a sender does with its listener: it notes a send, gets a NACK, or drains the queue.
pub data Call : Type 0 where
  sent_call : ℕ → Call
  nack_call : Request → Call
  take_call : Call

-- The listener, and the requests that the sender has drained so far.
abbrev pub Sender : Type 0
Sender = NackListener × List Request

unfoldable pub make_call : Sender → Call → Sender
make_call (l, taken) (sent_call seq) = (note_sent l seq, taken)
make_call (l, taken) (nack_call r) = (on_nack l r, taken)
make_call (l, taken) take_call = ((take_requests l).1, taken ++ (take_requests l).0)

unfoldable pub make_calls : Sender → List Call → Sender
make_calls s cs = foldl make_call s cs

abbrev is_seq : ℕ → Request → Bool
is_seq seq r = r.seq == seq

-- The requests for a packet, drained or queued.
abbrev pub requests_for : ℕ → Sender → ℕ
requests_for seq (l, taken) = count_if (is_seq seq) taken + count_if (is_seq seq) l.queue

-- How often a packet was noted as sent.
abbrev pub sends_of : ℕ → List Call → ℕ
sends_of seq [] = 0
sends_of seq (sent_call s ∷ cs) = if s == seq then suc (sends_of seq cs) else sends_of seq cs
sends_of seq (nack_call r ∷ cs) = sends_of seq cs
sends_of seq (take_call ∷ cs) = sends_of seq cs

-- The retransmits that the remembered entries for a packet still allow.
abbrev allowance : ℕ → ℕ → List (ℕ × ℕ) → ℕ
allowance max seq m = sum_by (λ e. if e.0 == seq then max - e.1 else 0) m

one_call-accounted :
    (l : NackListener) (taken : List Request) (c : Call)
    → let s' = make_call (l, taken) c in
      s'.0.stats.nacks_received + (l.stats.nacks_ignored + length taken + length l.queue)
      ≡ s'.0.stats.nacks_ignored + length s'.1 + length s'.0.queue + l.stats.nacks_received
unfolding make_call note_sent on_nack
one_call-accounted l taken (sent_call k) = elim (Option-cases (find ℕ_discrete k l.recent)) [
  | inl fresh ↦ rw (fresh, note_sent) (omega arith)
  | inr (n, known) ↦ rw (known, note_sent) (omega arith)
]
one_call-accounted l taken (nack_call r) = elim (Option-cases (find ℕ_discrete r.seq l.recent)) [
  | inl unknown ↦ rw (unknown, on_nack) (omega arith)
  | inr (n, known) ↦ elim (Bool-cases (leb l.max_retransmits n)) [
    | inl full ↦ rw (known, on_nack, full) (omega arith)
    | inr left ↦ rw (known, on_nack, left) (omega (arith, length-append l.queue (r ∷ [])))
  ]
]
one_call-accounted l taken take_call =
    unfold take_requests in omega (arith, length-append taken l.queue)

accounted :
    (cs : List Call) (l : NackListener) (taken : List Request)
    → let s' = make_calls (l, taken) cs in
      s'.0.stats.nacks_received + (l.stats.nacks_ignored + length taken + length l.queue)
      ≡ s'.0.stats.nacks_ignored + length s'.1 + length s'.0.queue + l.stats.nacks_received
unfolding make_calls
accounted [] l taken = omega arith
accounted (c ∷ cs) l taken =
    let s' = make_call (l, taken) c in
    let ih = accounted cs s'.0 s'.1 in omega (arith, ih, one_call-accounted l taken c)

-- Every NACK that the listener received is either counted as ignored or became one request, drained or
-- still queued.
pub make_calls-nacks_received :
    (cs : List Call) (max : ℕ)
    → let (l, taken) = make_calls (new_listener max no_stats, []) cs in
      l.stats.nacks_received ≡ l.stats.nacks_ignored + length taken + length l.queue
make_calls-nacks_received cs max = omega (arith, accounted cs (new_listener max no_stats) [])
