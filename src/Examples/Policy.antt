-- ===== src/Examples/Policy.antt =====
-- srv6_mrc/topo.py and srv6_mrc/policy.py on a fabric of two planes and four spines.
use srv6_mrc_emulator.Common.{
  ℕ, ◌≤◌, ◌≡◌, refl, List, [], ◌∷◌, ◌++◌, none, some, ok, length, occurrences, Grid, ltb,
  if◌then◌else◌,
}
use srv6_mrc_emulator.Topo.Defs as Topology
use srv6_mrc_emulator.Topo.Defs.{
  Shape, FlowKey, Text, bar, select_spines_for_addrs, select_spines_from_seed,
}
use srv6_mrc_emulator.Topo.Spines
use srv6_mrc_emulator.Topo.Spines.{once_below}
use srv6_mrc_emulator.EvState.Run.{Signal, loss_signal}
use srv6_mrc_emulator.Policy.Defs as Policies
use srv6_mrc_emulator.Policy.Defs.{
  Subsets, spray_ev, ev_spray_pick_ev, round_robin_pick, weighted_ev,
}
use srv6_mrc_emulator.Policy.Health
use srv6_mrc_emulator.Policy.Spray
use srv6_mrc_emulator.Policy.Snapshot
use srv6_mrc_emulator.Policy.Snapshot.{
  MrcSnapshot, SnapshotData, missing, found, new_snapshot, snapshot_pick_ev, cold_start,
  refresh_once,
}
use srv6_mrc_emulator.Policy.Twin
use srv6_mrc_emulator.Policy.Twin.{Event, pick_event, refresh_event, history, after_pick}

program : Unit {0}
unfolding Topology.fnv1a Topology.decimal_from Topology.hash5 Topology.draw Topology.pick_spines
    Topology.select_spines_from_seed Topology.text_le Topology.select_spines_for_addrs
    Policies.cdf_from Policies.force_last Policies.build_cdf Policies.first_above
    Policies.weighted_pick Policies.find_subset Policies.spines_for_flow Policies.spray_ev
    Policies.ev_spray_pick_ev Policies.flat_from Policies.weighted_ev Policies.check_paths
    Snapshot.find_weights Snapshot.wgrid_from_snapshot Snapshot.refresh Snapshot.refresh_once
    Snapshot.new_snapshot Snapshot.find_cdf Snapshot.cdf_for Snapshot.snapshot_pick_ev Twin.happen
    Twin.history
program = tt

abbrev fabric : Shape
fabric = record { num_planes = 2; num_spines = 4 }

-- "fd00::1" and "fd00::2"
abbrev one_addr : Text
one_addr = 102 ∷ 100 ∷ 48 ∷ 48 ∷ 58 ∷ 58 ∷ 49 ∷ []

abbrev two_addr : Text
two_addr = 102 ∷ 100 ∷ 48 ∷ 48 ∷ 58 ∷ 58 ∷ 50 ∷ []

abbrev flow : FlowKey
flow = record { src_addr = one_addr; dst_addr = two_addr; src_port = 40000; dst_port = 9999 }

abbrev two_picks : List ℕ
two_picks = select_spines_from_seed 4 (one_addr ++ bar ∷ two_addr) 2

abbrev all_picks : List ℕ
all_picks = select_spines_from_seed 4 (one_addr ++ bar ∷ two_addr) 4

two_picked : select_spines_for_addrs 4 one_addr two_addr 2 ≡ ok two_picks
unfolding program
two_picked = refl

all_picked : select_spines_for_addrs 4 one_addr two_addr 4 ≡ ok all_picks
unfolding program
all_picked = refl

select_spines_for_addrs-distinct_example :
    (length two_picks ≡ 2) × (occurrences 3 two_picks ≤ once_below 4 3)
select_spines_for_addrs-distinct_example =
    Spines.select_spines_for_addrs-distinct 4 2 3 one_addr two_addr {picks = two_picks} two_picked

abbrev lossy : List Signal
lossy = loss_signal 0 1 0 9 ∷ loss_signal 0 1 0 9 ∷ loss_signal 0 1 0 9 ∷ []

-- Only plane 1 has weight.
abbrev lopsided : Grid ℕ
lopsided plane path = if ltb 0 plane then 1 else 0

abbrev remembered : Subsets
remembered = (flow, two_picks) ∷ []

-- "red"
abbrev tenant : Text
tenant = 114 ∷ 101 ∷ 100 ∷ []

abbrev snapshot_file : SnapshotData
snapshot_file = record {
  planes = 2;
  paths = 4;
  tenants = (tenant, 0 ∷ 2 ∷ 2 ∷ 2 ∷ 2 ∷ 2 ∷ 2 ∷ 2 ∷ []) ∷ [];
}

abbrev start : MrcSnapshot
start = refresh_once (cold_start tenant fabric 2) missing

abbrev events : List Event
events =
    pick_event 1 flow
    ∷ refresh_event (found 10 (some snapshot_file))
    ∷ refresh_event (found 20 none)
    ∷ pick_event 2 flow
    ∷ []

started : new_snapshot tenant fabric (some 2) 200 missing ≡ ok start
unfolding program
started = refl

abbrev now : MrcSnapshot
now = history start events

abbrev chosen : ℕ × ℕ
chosen = weighted_ev now.shape now.wgrid two_picks 3 flow

abbrev later : MrcSnapshot
later = after_pick now (snapshot_pick_ev now 3 flow)

picked_third : snapshot_pick_ev now 3 flow ≡ ok (chosen, later)
unfolding program
picked_third = refl

loaded_once : (now.refresh_loaded ≡ 1) × (now.refresh_errors ≡ 1) × (now.refresh_missing ≡ 1)
unfolding program
loaded_once = (refl, refl, refl)

snapshot_pick_ev-weighted_ev_example :
    (spines : List ℕ) × (select_spines_for_addrs now.shape.num_spines one_addr two_addr
        now.paths_per_plane
      ≡ ok spines)
    × (chosen ≡ weighted_ev now.shape now.wgrid spines 3 flow)
snapshot_pick_ev-weighted_ev_example =
    Twin.snapshot_pick_ev-weighted_ev tenant fabric (some 2) 200 missing events 3 flow
      {start = start} {ev = chosen} {next = later} started picked_third
