-- ===== src/Examples/SentCounters.antt =====
-- srv6_mrc/mrc/sent_counters.py on a sender of two planes and three paths. One publish and one read fail.
use srv6_mrc_emulator.Common.{◌≤◌, ◌≡◌, List, [], ◌∷◌, ◌++◌, true, false, arith, refl}
use srv6_mrc_emulator.SentCounters.Defs.{delta, row_delta}
use srv6_mrc_emulator.SentCounters.Link.{
  Step, packet_step, publish_step, read_step, take_steps, new_link, read_in_all, packets_on,
}
use srv6_mrc_emulator.SentCounters.Conservation.{take_steps-read_in_all}

abbrev steps : List Step
steps =
    packet_step 1 2
    ∷ read_step true
    ∷ publish_step true
    ∷ packet_step 1 2
    ∷ read_step true
    ∷ publish_step false
    ∷ packet_step 0 2
    ∷ packet_step 1 2
    ∷ publish_step true
    ∷ read_step false
    ∷ []

counts_three : packets_on 1 2 steps ≡ 3
counts_three = refl

-- A sender that started anew: the counts that went backwards are taken as they are.
restarted : delta ((1 ∷ 9 ∷ []) ∷ []) ((5 ∷ 7 ∷ []) ∷ []) ≡ ((1 ∷ 2 ∷ []) ∷ [])
unfolding delta row_delta
restarted = refl

take_steps-read_in_all_example :
    (read_in_all 1 2 (take_steps (new_link 2 3) steps).deltas ≤ packets_on 1 2 steps)
    × (read_in_all 1 2
          (take_steps (new_link 2 3) (steps ++ (publish_step true ∷ read_step true ∷ []))).deltas
        ≡ packets_on 1 2 steps)
take_steps-read_in_all_example = take_steps-read_in_all 2 3 1 2 steps (omega arith) (omega arith)
