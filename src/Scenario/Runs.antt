-- ===== src/Scenario/Runs.antt =====
-- srv6_mrc/mrc/scenario.py and runner.py: the senders of a validated scenario.
use srv6_mrc_emulator.Common.{ℕ, ◌≡◌, ◌<◌, List, Option, none, some, length, ok}
use srv6_mrc_emulator.Wire.Defs.{Bytes}
use srv6_mrc_emulator.Topo.Addresses.{Fabric}
use srv6_mrc_emulator.Runner.Plan.{Plan, Sender}
use srv6_mrc_emulator.Runner.Sender.{run_sender}
use srv6_mrc_emulator.Scenario.Value.{Value}
use srv6_mrc_emulator.Scenario.Pairs.{FlowPair}
use srv6_mrc_emulator.Scenario.Defs.{Scenario}

abbrev IsBelow : ℕ → Option ℕ → Type 0
IsBelow n none = Unit {0}
IsBelow n (some s) = s < n

-- A sender whose policy keeps to the fabric.
pub record IsInside {P G : Type 0} (f : Fabric) (t : Plan P G) : Type 0 where
  pub ev_plane : (policy : P) (seq : ℕ) → (t.pick_ev policy seq).0.0 < f.shape.num_planes
  pub ev_path : (policy : P) (seq : ℕ) → (t.pick_ev policy seq).0.1 < f.shape.num_spines
  pub plane : (policy : P) (seq : ℕ) → (t.pick policy seq).0 < f.shape.num_planes

module _ {P G : Type 0} (f : Fabric) (t : Plan P G) where
  -- The sender of a pair.
  abbrev pub plan_for : FlowPair → Plan P G
  plan_for p = record t { fabric = f; tenant = p.tenant; src_id = p.src; dst_id = p.dst }

  -- The run of a pair's sender ends, with as many turns as it is given.
  abbrev pub Ends : P → List (List Bytes) → List (List Bytes) → FlowPair → Type 0
  Ends policy batches drained p =
      (e : Sender P G) × ((run_sender (plan_for p) policy none batches drained ≡ ok e)
        × (e.seq ≡ length batches))
