-- ===== src/Lib.antt =====
-- srv6-mrc-emulator: the multipath reliable connection (MRC) control logic that runs beside an SRv6
-- fabric of several planes and paths. An EV is a pair (plane, path) that a sender can spray packets on.
--
-- The parts, how they interact, and the files that model them (paths from the repository's root):
--
-- * srv6_mrc/mrc/probe.py, the payloads of PROBE, LOSS_REPORT and NACK datagrams: Wire. Wire/Struct is
--   what the code uses of Python's `struct`; Wire/Defs has the records, their range checks
--   (`make_probe` for `Probe.__post_init__`, and so on), `encode_*` and `decode_*` under the code's
--   names; Wire/RoundTrip and Wire/Reports are about them.
-- * srv6_mrc/mrc/ev_state.py, the table of EV health that a sender keeps: EvState. EvState/Defs has the
--   record of an EV and the steps that run under the lock for one tenant: `tick`, `evaluate` and
--   `judge` (`_evaluate_locked`), `try_demote`, `transition`, `rebuild_weights`, `loss_window`
--   (`record_loss_window` past its checks), `probe_sent`, `probe_recv`. EvState/Table has the table
--   over all tenants, with the checks that raise. EvState/Spec says what a signal does to one EV;
--   EvState/Refinement relates the two. The rest is about runs: Floor, Weights and Records are the
--   parts of the invariant that Run puts together; Verdicts and Tick say when a state changes;
--   Recovery is about an EV that comes back, Tenants about the tenants' independence.
-- * srv6_mrc/mrc/loss_window.py, what a receiver counts for each flow, and the report that closes a
--   window: LossWindow. Arrivals relates the counters to the packets that arrived, OnWire follows a
--   report through the codec of Wire.
-- * srv6_mrc/mrc/loss_compute.py, how a sender pairs a report with what it sent and feeds the table of
--   EvState: LossCompute. Ring is the ring of emit windows, Fusion is `apply_loss_report`.
-- * srv6_mrc/topo.py, flow identity and the spines of a pair: Topo. srv6_mrc/topology.py repeats the
--   functions with its own number of spines, which is a parameter here. Topo/Addresses has the addresses
--   that the code prints and reads, as lists of character codes, over a record of the topology's globals;
--   Text and Hex are the digits, Ipv6 and Parsing what `ipaddress` makes of the printed shapes, Readback,
--   Hosts, Usids, Queues and Tenants relate what is printed to what is read.
-- * srv6_mrc/mrc/daemon.py, the process that shares a socket among a host's flows: Daemon. Daemon/Defs has the
--   construction and `_dispatch_loop` with its two handlers; Counters is about what is counted, Routing about
--   which agent changes, Delivery follows a probe and a loss report to the agent, Setup starts the daemon.
-- * srv6_mrc/runner.py, the data sender and the data receiver: Runner. Frame is `encode_payload` and
--   `_parse_frame`, Framing and Capture are about captured frames, Receiver is `handle` of `run_receiver`,
--   Accounts, Recovery and Recovered are about its counts, Delivered follows a payload into it.
--   Plan and Sender are `run_sender` over a policy with a state of its own; a turn takes the NACKs that have come in since the last one, and the
--   turns are as many as fit before the deadline. Sent and Run are about its counts, Total about its end,
--   Retransmit about the EV of a retransmission. Bytes of a frame out of range are read as zero.
-- * srv6_mrc/mrc/scenario.py, the checks of a scenario document: Scenario. Value is the parsed YAML document, Outcome
--   the errors with their place; Numbers has rates, durations and Python's `int` and `float`, Policies is
--   `policy_from_spec` of policy.py, Pairs the pair sets, Mrc the `mrc:` block with `to_env_json` and
--   `load_configs_from_env` of agent.py, Blocks the other blocks, Defs `validate`. Calls is about calls and their
--   errors; Entries, PairSets, MrcValues, BlockValues, Valid and Whole are about what a validated scenario keeps to,
--   EnvFields and Env follow the block to the agents' configurations, Collectives is about
--   the generated sets, Runs joins a scenario to its senders.
-- * srv6_mrc/netem.py, the targets and specs of injected faults: Netem.
-- * srv6_mrc/policy.py, the EV of each packet: Policy. Policy/Defs has the picks of the stateless
--   policies and of HealthAwareMrc (`health_aware_pick_ev`), Policy/Snapshot those of MrcSnapshot with
--   its file refreshes; Draw is the weighted draw, Health joins it to the table of EvState, Spray is
--   EvSpray, Twin relates the two weighted policies.
-- * srv6_mrc/trim.py, packet trimming and the NACKs a sender answers: Trim. Nacks is the listener under any
--   calls, Oracle the draws; the pseudo-random generator is a parameter.
-- * srv6_mrc/reorder.py, a flow's reorder statistics: Reorder. Counts is about what is counted, Percentile
--   about `reorder_percentile`, Tracker keeps the flows apart.
-- * srv6_mrc/mrc/sent_counters.py, the sent counts that reach the daemon by a file: SentCounters.
--   Link runs sender, file and daemon by steps, Linked is their invariant, Conservation counts what the
--   daemon reads.
-- * srv6_mrc/mrc/agent.py, the agents around these tables: Agent. Sender has the sender's operations,
--   Calls and Rotation run it between two rotations of its window, Probes is a round of probes. Receiver
--   has the receiver's operations, Nacks and Reports follow what it sends to the sender's decoders.
-- * Common has the shared names, the Boolean tests, results with an error, lists, the cells of a grid,
--   dictionaries, and what the code uses of Python's texts. Examples runs the code on small inputs.
--
-- How the state corresponds. An int that the code keeps at zero or above is a native natural number;
-- the mark -1 for "nothing yet" is `none`; arguments below zero, which the code's checks refuse, have no
-- counterpart. A float is an exact fraction, and a comparison is a cross multiplication; the code's
-- floats are quotients of counts, and the rounding of those is not modelled. A dict is an
-- association list in insertion order; a nested list of rows by plane and path is a function of two
-- numbers with the bounds checked where the code checks them; a deque with a bound keeps its last
-- elements. Bytes are numbers. The errors are a name each, without their texts. A lock
-- makes each method one step, so threads are sequences of calls, in any order; the lock and the threads
-- themselves are not modelled. The callback `on_transition` is a log of its calls. Every loop of the
-- modelled code is a loop over a list, but for the one over VLAN tags, whose fuel is the frame's length,
-- those that print a number's digits, with fuel for 64 bits, and the eight tries for another EV.
--
-- Not modelled: sockets, scapy packets, clocks, threads and processes (transport, encap, mrc/run, and the threads of
-- agent, daemon and runner), YAML and JSON texts (scenario, topology, report), command lines (cli), the text of router
-- configuration (generators), the commands of netem and fault, and the visibility scraper.
pub mod Common
pub mod Wire
pub mod EvState
pub mod LossWindow
pub mod LossCompute
pub mod Trim
pub mod Reorder
pub mod SentCounters
pub mod Agent
pub mod Topo
pub mod Policy
pub mod Daemon
pub mod Runner
pub mod Netem
pub mod Scenario
pub mod Examples
