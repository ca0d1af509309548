-- ===== src/Examples/Runner.antt =====
-- srv6_mrc/runner.py: a yellow flow from host 0 to host 15 of the reference fabric.
use native.Mathlib.Decide.{ℕ_discrete}
use srv6_mrc_emulator.Common.{
  ℕ, ◌+◌, ◌%◌, ◌≡◌, ◌≢◌, refl, true, [], ◌∷◌, ◌++◌, some, none, ok, All, ◌⊎◌, ltb, Result, raise,
}
use srv6_mrc_emulator.Common.Dict.{find}
use srv6_mrc_emulator.Wire.Struct.{be_bytes, pack}
use srv6_mrc_emulator.Wire.Defs.{Bytes}
use srv6_mrc_emulator.Topo.Text.{hex, hex_from, hex_02, hex_value, digit_value}
use srv6_mrc_emulator.Topo.Ipv6.{ipv6_groups, split_colon, empty_at, parse_hextets, parse_hextet}
use srv6_mrc_emulator.Topo.Addresses.{
  check_tenant, check_host, usid_outer_dst, inner_addr, green_anycast_addr, yellow_anycast_addr,
  host_underlay_addr, ua,
}
use srv6_mrc_emulator.Reorder.Tracker.{arrivals_of, observe_flows, observe_flows-find, watched}
use srv6_mrc_emulator.Trim.Defs.{
  trim_mode, new_listener, no_stats, take_requests, note_sent, hits, matches,
}
use srv6_mrc_emulator.Runner.Frame.{pack_header, encode_payload, pad}
use srv6_mrc_emulator.Runner.Framing.{Header, IsHeader, udp}
use srv6_mrc_emulator.Runner.Capture.{Tag, carried, frame_of}
use srv6_mrc_emulator.Runner.Receiver.{
  Receiver, Captured, no_frames, new_receiver, take_trimmed, take_packet, handle, handle_all,
  rx_discrete, RxFlow,
}
use srv6_mrc_emulator.Runner.Accounts.{IsAccounted}
use srv6_mrc_emulator.Runner.Recovered.{handle_all-IsAccounted}
use srv6_mrc_emulator.Runner.Delivered.{handle-encode_payload}
use srv6_mrc_emulator.Runner.Plan.{Plan, Trimming, Sender, spine_for}
use srv6_mrc_emulator.Runner.Sender.{
  next_ev, resolve, check_planes, fresh, emit, other_ev, pick_other_ev, retransmit,
  retransmit_nacked, retransmits, run_sender, send_new, turn, turns, drain,
}
use srv6_mrc_emulator.Runner.Run.{IsCounted, run_sender-IsCounted}
use srv6_mrc_emulator.Runner.Retransmit.{picks, pick_other_ev-avoids}
use srv6_mrc_emulator.Examples.Topo.{reference}

-- Two frames of the flow: a full payload, tagged and encapsulated, and a header alone.
abbrev address : ℕ → Bytes
address host = 0x20 ∷ 1 ∷ 0xd ∷ 0xb8 ∷ 0xcc ∷ 0xcc ∷ 0 ∷ host ∷ 0 ∷ 0 ∷ 0 ∷ 0 ∷ 0 ∷ 0 ∷ 0 ∷ 2 ∷ []

abbrev inner : Header
inner = record {
  first = 0x60;
  second = 0;
  third = 0;
  fourth = 0;
  hop_limit = 64;
  src = address 0;
  dst = address 15;
}

inner-IsHeader : IsHeader inner
inner-IsHeader = record { version = refl; src_len = refl; dst_len = refl }

abbrev macs : Bytes
macs = 2 ∷ 0 ∷ 0 ∷ 0 ∷ 0 ∷ 1 ∷ 2 ∷ 0 ∷ 0 ∷ 0 ∷ 0 ∷ 2 ∷ []

abbrev vlan : Tag
vlan = record { high = 0x81; low = 0; control1 = 0; control0 = 7 }

abbrev header_bytes : Bytes
header_bytes = 0 ∷ 0 ∷ 0 ∷ 0 ∷ 0 ∷ 0 ∷ 0 ∷ 5 ∷ 1 ∷ 3 ∷ []

abbrev waiting : Receiver
waiting = no_frames (address 15)

started : new_receiver reference "yellow" 15 ≡ ok waiting
unfolding new_receiver inner_addr check_tenant check_host green_anycast_addr yellow_anycast_addr hex
    hex_from be_bytes ipv6_groups split_colon hex_02 empty_at parse_hextets parse_hextet hex_value
    digit_value
started = refl

abbrev captured : Bytes → Captured
captured body = record {
  nic = 2;
  now = 7;
  frame = frame_of macs (vlan ∷ []) (carried (some inner) inner (udp 40000 9999 0 0 body)) [];
}

handle_all-IsAccounted_example : IsAccounted (
    handle_all waiting
      (captured header_bytes ∷ captured (header_bytes ++ pad) ∷ captured header_bytes ∷ []))
handle_all-IsAccounted_example =
    handle_all-IsAccounted reference "yellow" 15 waiting
      (captured header_bytes ∷ captured (header_bytes ++ pad) ∷ captured header_bytes ∷ []) started

header_packed : pack_header 5 1 3 ≡ ok header_bytes
unfolding pack_header be_bytes pack
header_packed = refl

full_packed : encode_payload 5 1 3 ≡ ok (header_bytes ++ pad)
unfolding encode_payload pack_header be_bytes pack
full_packed = refl

abbrev flow : RxFlow
flow = (address 0, (address 15, (40000, 9999)))

handle-encode_payload_example :
    (handle waiting (captured (header_bytes ++ pad)) ≡ take_packet waiting 2 flow 5 1 3 7)
    × (handle waiting (captured header_bytes) ≡ take_trimmed waiting flow 5 1 3 7)
handle-encode_payload_example =
    handle-encode_payload waiting 2 7 40000 0 0 macs (vlan ∷ []) (some inner) inner [] refl
      (refl, tt) inner-IsHeader inner-IsHeader refl 5 1 3 (header_bytes ++ pad) header_bytes
      full_packed header_packed

-- The flow's sender, with a policy that walks the EVs, and every third `sendto` failing.
abbrev pub walk : ℕ → ℕ → (ℕ × ℕ) × ℕ
walk k seq = ((k % 4, k % 8), k + 1)

abbrev pub plan : Plan ℕ ℕ
plan = record {
  fabric = reference;
  tenant = "yellow";
  src_id = 0;
  dst_id = 15;
  sid_mode = ua;
  ev_aware = true;
  pick_ev = walk;
  pick = λ k seq. (k % 4, k + 1);
  random = λ g. (record { num = 1; den = 2 }, g);
  works = λ attempt. ltb (attempt % 3) 2;
}

pick_other_ev-avoids_example :
    ((pick_other_ev plan 5 0 (1, 5)).0 ≢ (1, 5)) ⊎ All (λ ev. ev ≡ (1, 5)) (picks plan 8 1 5 0)
pick_other_ev-avoids_example = pick_other_ev-avoids plan 5 0 (1, 5)

observe_flows-find_example :
    find rx_discrete flow
      (observe_flows rx_discrete [] ((flow, (0, some 1)) ∷ (flow, (2, some 2)) ∷ []))
    ≡ watched rx_discrete
        (find rx_discrete flow [])
        (arrivals_of rx_discrete flow ((flow, (0, some 1)) ∷ (flow, (2, some 2)) ∷ []))
observe_flows-find_example =
    observe_flows-find rx_discrete ((flow, (0, some 1)) ∷ (flow, (2, some 2)) ∷ []) [] flow

-- A sender that trims every packet of its first EV, and is told so of the first of them.
abbrev trimming : Trimming ℕ
trimming = record {
  spec = record {
    rate = record { num = 1; den = 1 };
    mode = trim_mode;
    planes = [];
    evs = (3, 3) ∷ [];
    seed = 0;
    max_retransmits = 8;
  };
  rng = 0;
  listener = record (new_listener 8 no_stats) {
    queue = record { seq = 0; plane = 3; path = 3 } ∷ [];
  };
}

abbrev end_of : Result (Sender ℕ ℕ) → Sender ℕ ℕ
end_of (ok s) = s
end_of (raise e) = fresh plan 0 none

ran :
    run_sender plan 3 (some trimming) ([] ∷ [] ∷ []) ([] ∷ [])
    ≡ ok (end_of (run_sender plan 3 (some trimming) ([] ∷ [] ∷ []) ([] ∷ [])))
unfolding run_sender inner_addr check_planes host_underlay_addr usid_outer_dst spine_for turns turn
    retransmit_nacked retransmits take_requests retransmit resolve pick_other_ev other_ev next_ev
    emit hits matches encode_payload pack_header send_new note_sent find ℕ_discrete drain
ran = refl

run_sender-IsCounted_example :
    IsCounted plan
      (some trimming)
      (end_of (run_sender plan 3 (some trimming) ([] ∷ [] ∷ []) ([] ∷ [])))
run_sender-IsCounted_example =
    run_sender-IsCounted plan (some trimming) 3 ([] ∷ [] ∷ []) ([] ∷ [])
      (end_of (run_sender plan 3 (some trimming) ([] ∷ [] ∷ []) ([] ∷ []))) ran
