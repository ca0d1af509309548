-- ===== src/Examples/Scenario.antt =====
-- srv6_mrc/mrc/scenario.py on the reference fabric.
use srv6_mrc_emulator.Common.{◌≡◌, refl, false, [], some, none, ltb, not, ◌==◌, ◌&&◌, if◌then◌else◌}
use srv6_mrc_emulator.Common.Texts.{
  words, non_empty, pieces, drop_digits, skip_spaces, take_digits, number,
}
use srv6_mrc_emulator.Scenario.Outcome.{Checked, done, wrong_type}
use srv6_mrc_emulator.Scenario.Value.{
  Value, pos, float, str, list, mapping, nil, cons, empty, entry,
}
use srv6_mrc_emulator.Scenario.Numbers.{parse_rate, rate_of}
use srv6_mrc_emulator.Scenario.Policies.{policy_from_spec, made_policy, iterate}
use srv6_mrc_emulator.Scenario.Pairs.{all_to_all_pairs}
use srv6_mrc_emulator.Scenario.Mrc.{MrcSpec, no_mrc_values}
use srv6_mrc_emulator.Scenario.Defs.{Scenario}
use srv6_mrc_emulator.Scenario.Collectives.{between, all_to_all_pairs-between}
use srv6_mrc_emulator.Examples.Topo.{reference}

abbrev smoke : Value
smoke = mapping (
    entry "name" (str "smoke") (
      entry "flows"
        (list (
          cons
            (mapping (
              entry "pairs"
                (list (
                  cons
                    (mapping (
                      entry "tenant" (str "green")
                        (entry "src" (pos 0) (entry "dst" (pos 15) empty))))
                    nil))
                (entry "policy" (str "ev_spray")
                  (entry "rate" (str "1000pps") (entry "duration" (str "1.5 s") empty)))))
            nil))
        empty))

abbrev block : Value
block = mapping (
    entry "loss_threshold" (float false (record { num = 1; den = 2 }))
      (entry "loss_window_ms" (pos 200) empty))

abbrev block_spec : MrcSpec
block_spec = record no_mrc_values {
  loss_threshold = some (record { num = 1; den = 2 });
  loss_window_ms = some 200;
}

all_to_all_pairs-between_example :
    between 3 5 (all_to_all_pairs 16 "green")
    ≡ (if ltb 3 16 && (ltb 5 16 && not (3 == 5)) then 1 else 0)
all_to_all_pairs-between_example = all_to_all_pairs-between 16 "green" 3 5

abbrev scenario_or : Scenario → Checked Scenario → Scenario
scenario_or other (done s) = s
scenario_or other _ = other

abbrev nothing_to_do : Scenario
nothing_to_do = record {
  name = "";
  description = "";
  flows = [];
  faults = [];
  report = none;
  mrc = none;
  paths_per_plane = none;
  sid = none;
  transport = none;
  trim = none;
}

-- A rate of zero is taken; a weight that is no list is a TypeError, which `validate` does not catch.
zero_rate : parse_rate (str "0pps") [] ≡ done 0
unfolding parse_rate rate_of words non_empty pieces drop_digits skip_spaces take_digits number
zero_rate = refl

no_weights :
    policy_from_spec reference.shape (mapping (entry "weighted" (pos 5) empty)) ≡ wrong_type
unfolding policy_from_spec made_policy iterate
no_weights = refl
