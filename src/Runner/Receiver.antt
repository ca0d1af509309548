-- ===== src/Runner/Receiver.antt =====
-- srv6_mrc/runner.py: what `run_receiver` does with a captured frame. Its callbacks are a log, latest call first.
use native.Mathlib.Decide.{ℕ_discrete}
use Prim.Derive.{×_discrete}
use Prim.Native.String.{String}
use srv6_mrc_emulator.Common.{
  ℕ, ◌+◌, List, [], ◌∷◌, ◌++◌, Option, none, some, ◌==◌, if◌then◌else◌, length, foldl, Result, ok,
  raise, key_error, same_list, list_discrete,
}
use srv6_mrc_emulator.Common.Dict.{find, put}
use srv6_mrc_emulator.Wire.Struct.{be_bytes}
use srv6_mrc_emulator.Wire.Defs.{Bytes}
use srv6_mrc_emulator.Topo.Defs.{Text}
use srv6_mrc_emulator.Topo.Ipv6.{ipv6_groups}
use srv6_mrc_emulator.Topo.Addresses.{Fabric, inner_addr}
use srv6_mrc_emulator.Reorder.Defs.{Counts, bump, FlowStats, contains, discard}
use srv6_mrc_emulator.Reorder.Tracker.{observe_flow}
use srv6_mrc_emulator.Runner.Frame.{Parsed, payload_hdr_len, parse_payload, parse_frame, unwrap_bth}

abbrev pub spray_port : ℕ
spray_port = 9999

abbrev pub rdma_port : ℕ
rdma_port = 4791

-- A FlowKey: the addresses' bytes, and the ports.
abbrev pub RxFlow : Type 0
RxFlow = Bytes × (Bytes × (ℕ × ℕ))

abbrev pub rx_discrete : Discrete RxFlow
rx_discrete = ×_discrete list_discrete (×_discrete list_discrete (×_discrete ℕ_discrete ℕ_discrete))

pub record TrimCounts : Type 0 where
  pub trimmed : ℕ
  pub recovered : ℕ

-- on_packet and on_trimmed, with (flow, plane, path, seq).
pub data Callback : Type 0 where
  on_packet : RxFlow → ℕ → ℕ → ℕ → Callback
  on_trimmed : RxFlow → ℕ → ℕ → ℕ → Callback

-- A NIC is its number in `nics`.
pub record Receiver : Type 0 where
  pub self_inner : Bytes
  pub tracker : List (RxFlow × FlowStats)
  pub per_nic : Counts
  pub per_plane : Counts
  pub last_rx : Option ℕ
  pub trim_stats : List (RxFlow × TrimCounts)
  pub trim_pending : List (RxFlow × List ℕ)
  pub calls : List Callback

-- The bytes of an address's groups.
abbrev pub group_bytes : List ℕ → Bytes
unfolding be_bytes
group_bytes [] = []
group_bytes (g ∷ gs) = be_bytes 2 g ++ group_bytes gs

-- _canon_inner(inner_addr(tenant, self_id)): a text that is no address matches no packet.
abbrev pub canon : Option (List ℕ) → Bytes
canon none = []
canon (some gs) = group_bytes gs

abbrev pub no_frames : Bytes → Receiver
no_frames self = record {
  self_inner = self;
  tracker = [];
  per_nic = [];
  per_plane = [];
  last_rx = none;
  trim_stats = [];
  trim_pending = [];
  calls = [];
}

abbrev pub of_self : Result Text → Result Receiver
of_self (raise e) = raise e
of_self (ok addr) = ok (no_frames (canon (ipv6_groups addr)))

unfoldable pub new_receiver : Fabric → String → ℕ → Result Receiver
new_receiver f tenant self_id = of_self (inner_addr f tenant self_id)

-- The framing, by the destination port.
unfoldable pub raw_payload : Parsed → Option Bytes
raw_payload p =
    if p.dport == spray_port
    then some p.udp_payload
    else if p.dport == rdma_port
    then unwrap_bth p.udp_payload
    else none

abbrev pub counts_or_zero : Option TrimCounts → TrimCounts
counts_or_zero none = record { trimmed = 0; recovered = 0 }
counts_or_zero (some c) = c

abbrev pub or_empty : Option (List ℕ) → List ℕ
or_empty none = []
or_empty (some s) = s

-- set.add
abbrev pub add : ℕ → List ℕ → List ℕ
add seq s = if contains seq s then s else seq ∷ s

-- Trimmed in flight: a header alone.
unfoldable pub take_trimmed : Receiver → RxFlow → ℕ → ℕ → ℕ → ℕ → Receiver
take_trimmed r flow seq plane path now =
    let counts = counts_or_zero (find rx_discrete flow r.trim_stats) in
    record r {
      trim_stats =
          put rx_discrete flow (record counts { trimmed = counts.trimmed + 1 }) r.trim_stats;
      trim_pending =
          put rx_discrete flow (add seq (or_empty (find rx_discrete flow r.trim_pending)))
            r.trim_pending;
      last_rx = some now;
      calls = on_trimmed flow plane path seq ∷ r.calls;
    }

-- trim_stats[flow]["recovered"] += 1
abbrev pub count_recovered : Receiver → RxFlow → Option TrimCounts → Receiver × Result (Unit {0})
count_recovered r flow none = (r, raise key_error)
count_recovered r flow (some c) = (
  record r {
    trim_stats = put rx_discrete flow (record c { recovered = c.recovered + 1 }) r.trim_stats;
  },
  ok tt,
)

abbrev pub recover : Receiver → RxFlow → ℕ → Option (List ℕ) → Receiver × Result (Unit {0})
recover r flow seq none = (r, ok tt)
recover r flow seq (some pending) =
    if contains seq pending
    then count_recovered
        (record r { trim_pending = put rx_discrete flow (discard seq pending) r.trim_pending }) flow
        (find rx_discrete flow r.trim_stats)
    else (r, ok tt)

-- An exception of the handler is caught by `capture`, which goes on.
abbrev pub deliver : ℕ → RxFlow → ℕ → ℕ → ℕ → ℕ → Receiver × Result (Unit {0}) → Receiver
deliver nic flow seq plane path now (r, raise e) = r
deliver nic flow seq plane path now (r, ok done) = record r {
  tracker = observe_flow rx_discrete r.tracker flow seq (some plane);
  per_nic = bump nic r.per_nic;
  per_plane = bump plane r.per_plane;
  last_rx = some now;
  calls = on_packet flow plane path seq ∷ r.calls;
}

unfoldable pub take_packet : Receiver → ℕ → RxFlow → ℕ → ℕ → ℕ → ℕ → Receiver
take_packet r nic flow seq plane path now =
    deliver nic flow seq plane path now (recover r flow seq (find rx_discrete flow r.trim_pending))

abbrev pub take_parsed : Receiver → ℕ → ℕ → RxFlow → Bytes → Option (ℕ × (ℕ × ℕ)) → Receiver
take_parsed r nic now flow raw none = r
take_parsed r nic now flow raw (some (seq, (plane, path))) =
    if length raw == payload_hdr_len
    then take_trimmed r flow seq plane path now
    else take_packet r nic flow seq plane path now

abbrev pub take_raw : Receiver → ℕ → ℕ → Parsed → Option Bytes → Receiver
take_raw r nic now p none = r
take_raw r nic now p (some raw) =
    if same_list p.inner_dst r.self_inner
    then take_parsed r nic now (p.inner_src, (p.inner_dst, (p.sport, p.dport))) raw
        (parse_payload raw)
    else r

abbrev pub take_frame : Receiver → ℕ → ℕ → Option Parsed → Receiver
take_frame r nic now none = r
take_frame r nic now (some p) = take_raw r nic now p (raw_payload p)

-- A captured frame: the NIC, the clock and the bytes.
pub record Captured : Type 0 where
  pub nic : ℕ
  pub now : ℕ
  pub frame : Bytes

unfoldable pub handle : Receiver → Captured → Receiver
handle r c = take_frame r c.nic c.now (parse_frame c.frame)

unfoldable pub handle_all : Receiver → List Captured → Receiver
handle_all r cs = foldl handle r cs
