-- ===== src/Examples/Ev.antt =====
-- srv6_mrc/mrc/ev_state.py on a table of two planes and one path.
use srv6_mrc_emulator.Common.{
  ℕ, suc, zero, ◌+◌, ◌-◌, ◌*◌, ◌≤◌, ◌≡◌, ◌≢◌, ◌↔◌, refl, Bool, true, false, not, ◌&&◌, List, [],
  ◌∷◌, ◌++◌, Option, none, some, min, ltb, leb, ◌==◌, if◌then◌else◌, arith, cells, length, set_cell,
  ltb→lt, leb→le, Result, ok, raise, value_error,
}
use Prim.Native.String.{String}
use srv6_mrc_emulator.Common
use srv6_mrc_emulator.EvState.Defs
use srv6_mrc_emulator.EvState.Defs.{
  EvState, assumed_bad, unknown, default_config, new_record, EvRecord, TenantEvs, Setup, tick,
  rotate, recover_hold, evaluate, resolve_min_active, weight_total, state_weight,
}
use srv6_mrc_emulator.EvState.Table.{
  EvStateTable, make_setup, new_tenant, new_table, find_tenant, put_tenant, check_tenant, check_ev,
  record_probe_sent, record_probe_recv, tick_tenant, record_loss_window, state,
}
use srv6_mrc_emulator.EvState.Spec.{settle, evaluated, judged, demoted, loss_recorded}
use srv6_mrc_emulator.EvState.Floor.{usable}
use srv6_mrc_emulator.EvState.Records.{IsRecord}
use srv6_mrc_emulator.EvState.Run.{
  Signal, sent_signal, recv_signal, tick_signal, loss_signal, apply_signal, run, reached,
}
use srv6_mrc_emulator.EvState.Recovery.{IsQuiet, round, rounds}
use srv6_mrc_emulator.EvState.Tenants.{call, calls, signals_for}
use srv6_mrc_emulator.EvState.Run
use srv6_mrc_emulator.EvState.Tenants
use srv6_mrc_emulator.EvState.Recovery
use srv6_mrc_emulator.EvState.Refinement

program : Unit {0}
unfolding Defs.state_weight Defs.resolve_min_active Defs.weight_total Defs.weights_of
    Defs.rebuild_weights Defs.transition_fields Defs.transition Defs.usable_after Defs.next_level
    Defs.demote_fields Defs.try_demote Defs.recover_hold Defs.judge Defs.evaluate Defs.rotate
    Defs.tick_cell Defs.tick Defs.probe_sent Defs.probe_recv Defs.loss_window apply_signal run
    new_tenant usable evaluated judged demoted loss_recorded settle round rounds call calls
    signals_for find_tenant put_tenant check_tenant Common.cells check_ev record_probe_sent
    record_probe_recv tick_tenant record_loss_window state
program = tt

abbrev su : Setup
su = make_setup default_config 2 1

-- Four probes on (0, 0) that all get lost; then three lossy windows of (1, 0).
abbrev lost : List Signal
lost = sent_signal 0 0 ∷ sent_signal 0 0 ∷ sent_signal 0 0 ∷ sent_signal 0 0 ∷ tick_signal ∷ []

abbrev lossy : List Signal
lossy = loss_signal 1 0 1 4 ∷ loss_signal 1 0 1 4 ∷ loss_signal 1 0 1 4 ∷ []

abbrev start : TenantEvs
start = new_tenant su

-- (0, 0) is demoted; (1, 0), the last usable EV, is not.
demoted_once : ((run su start lost).evs 0 0).state ≡ assumed_bad
unfolding program
demoted_once = refl

floor_holds : ((run su start (lost ++ lossy)).evs 1 0).state ≡ unknown
unfolding program
floor_holds = refl

floor_counts : ((run su start (lost ++ lossy)).evs 1 0).demotes_suppressed_by_floor ≡ 1
unfolding program
floor_counts = refl

weight_after : ((run su start lost).weights 1 0).num ≡ 1
unfolding program
weight_after = refl

one : 1 ≤ 1
one = omega arith

usable-run_floor_example :
    (resolve_min_active default_config 2 1
      ≤ usable (cells 2 1) (reached default_config 2 1 (lost ++ lossy)).evs)
    × (1 ≤ usable (cells 2 1) (reached default_config 2 1 (lost ++ lossy)).evs)
usable-run_floor_example = Run.usable-run_floor default_config 2 1 (lost ++ lossy) (omega arith) one

run-IsRecord_example :
    IsRecord default_config
      (reached default_config 2 1 lossy).ticks
      ((reached default_config 2 1 lossy).evs 1 0)
run-IsRecord_example = Run.run-IsRecord default_config 2 1 lossy 1 0 (omega arith) one

-- (0, 0) demoted by probes, with three of its five healthy windows; its window is all healthy.
abbrev bad_record : EvRecord
bad_record = record new_record {
  state = assumed_bad;
  buckets = (4, 4) ∷ [];
  consecutive_healthy_windows = 3;
}

abbrev bad_table : TenantEvs
bad_table = record start { evs = set_cell start.evs 0 0 bad_record }

abbrev traffic : List Signal
traffic = sent_signal 0 0 ∷ recv_signal 0 0 ∷ loss_signal 1 0 1 4 ∷ []

-- Its window of this tick is healthy, and the hold is reached.
abbrev due_table : TenantEvs
due_table = record start {
  evs = set_cell start.evs 0 0 (record bad_record { consecutive_healthy_windows = 4 });
}

abbrev failing_table : TenantEvs
failing_table = record start {
  evs = set_cell start.evs 0 0 (record new_record { current_sent = 4; current_recv = 1 });
}

usable_state : unknown ≢ assumed_bad
usable_state e = cc

failing_tick : ((tick su failing_table).evs 0 0).state ≡ assumed_bad
unfolding program
failing_tick = refl

abbrev failing : EvRecord
failing = record new_record { buckets = (4, 1) ∷ [] }

abbrev lossy_twice : EvRecord
lossy_twice = record new_record { consecutive_loss_demote_windows = 2 }

positive : ◌≢◌ {A = ℕ} 8 0
positive e = absurd (omega arith)

abbrev table : EvStateTable
table = record { setup = su; tenants = ("red", start) ∷ ("blue", start) ∷ [] }

abbrev mixed : List (String × Signal)
mixed =
    ("blue", sent_signal 0 0)
    ∷ ("red", tick_signal)
    ∷ ("green", tick_signal)
    ∷ ("blue", recv_signal 5 0)
    ∷ ("blue", tick_signal)
    ∷ []

built : new_table ("red" ∷ "blue" ∷ []) 2 1 default_config ≡ ok table
unfolding program new_table
built = refl

blue : find_tenant "blue" table.tenants ≡ some start
unfolding program
blue = refl

blue_signals : signals_for "blue" mixed ≡ sent_signal 0 0 ∷ recv_signal 5 0 ∷ tick_signal ∷ []
unfolding program
blue_signals = refl

calls-run_example :
    find_tenant "blue" (calls table mixed).tenants ≡ some (run su start (signals_for "blue" mixed))
calls-run_example = Tenants.calls-run mixed table "blue" start blue
