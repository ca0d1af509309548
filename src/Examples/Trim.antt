-- ===== src/Examples/Trim.antt =====
-- srv6_mrc/trim.py and srv6_mrc/reorder.py on short sequences of packets.
use srv6_mrc_emulator.Common.{ℕ, ◌+◌, ◌≡◌, refl, true, false, List, [], ◌∷◌, none, some}
use native.Mathlib.Decide.{ℕ_discrete}
use srv6_mrc_emulator.Common.Dict
use srv6_mrc_emulator.EvState.Defs.{Ratio}
use srv6_mrc_emulator.Trim.Defs
use srv6_mrc_emulator.Trim.Defs.{TrimSpec, trim_mode, Request, new_listener, no_stats}
use srv6_mrc_emulator.Trim.Nacks
use srv6_mrc_emulator.Trim.Nacks.{Call, sent_call, nack_call, take_call, make_calls, requests_for}
use srv6_mrc_emulator.Trim.Oracle.{answers}
use srv6_mrc_emulator.Reorder.Defs as Flow
use srv6_mrc_emulator.Reorder.Defs.{FlowStats, new_stats, reorder_percentile}
use srv6_mrc_emulator.Reorder.Counts.{Arrival, observed}
use srv6_mrc_emulator.Reorder.Percentile

program : Unit {0}
unfolding Dict.find Dict.put ℕ_discrete Defs.matches Defs.hits Defs.note_sent Defs.on_nack
    Defs.take_requests Nacks.make_call make_calls answers Flow.bump Flow.remember Flow.observe
    Flow.expected Flow.loss Flow.by_distance Flow.reach reorder_percentile observed
program = tt

abbrev nack : Call
nack = nack_call (record { seq = 7; plane = 1; path = 0 })

-- A packet sent once, with three NACKs, of which two are allowed.
abbrev busy : List Call
busy = sent_call 7 ∷ nack ∷ take_call ∷ nack ∷ nack ∷ []

two_requests : requests_for 7 (make_calls (new_listener 2 no_stats, []) busy) ≡ 2
unfolding program
two_requests = refl

-- A generator that counts through the tenths.
abbrev tenths : ℕ → Ratio × ℕ
tenths n = (record { num = n; den = 10 }, n + 1)

abbrev spec : TrimSpec
spec = record {
  rate = record { num = 1; den = 5 };
  mode = trim_mode;
  planes = 1 ∷ [];
  evs = [];
  seed = 0;
  max_retransmits = 3;
}

abbrev packets : List (ℕ × ℕ)
packets = (1, 0) ∷ (0, 0) ∷ (1, 1) ∷ (1, 0) ∷ []

oracle_answers : answers tenths spec 0 packets ≡ true ∷ false ∷ true ∷ false ∷ []
unfolding program
oracle_answers = refl

-- Numbers 5, 8, 6, 8: one late by two, and one duplicate.
abbrev flow : List Arrival
flow = (5, some 0) ∷ (8, some 1) ∷ (6, some 0) ∷ (8, none) ∷ []

one_lost : (Flow.expected (observed new_stats flow) ≡ 4) × (Flow.loss (observed new_stats flow) ≡ 1)
unfolding program
one_lost = (refl, refl)

abbrev spread : FlowStats
spread = record new_stats { received = 10; reorder_hist = (0, 7) ∷ (5, 1) ∷ (2, 2) ∷ [] }

abbrev ninety : Ratio
ninety = record { num = 90; den = 1 }
