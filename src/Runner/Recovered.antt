-- ===== src/Runner/Recovered.antt =====
-- srv6_mrc/runner.py: the counts of a receiver over any frames.
use mathlib.Core.Path.{subst}
use Prim.Native.String.{String}
use srv6_mrc_emulator.Common.{
  ℕ, ◌≡◌, refl, sym, ap, List, [], ◌∷◌, Option, none, some, ◌==◌, length, arith, Result, ok,
  ok-injective, if_elim, raise, same_list,
}
use srv6_mrc_emulator.Common.Dict.{find}
use srv6_mrc_emulator.Wire.Defs.{Bytes}
use srv6_mrc_emulator.Topo.Defs.{Text}
use srv6_mrc_emulator.Topo.Ipv6.{ipv6_groups}
use srv6_mrc_emulator.Topo.Addresses.{Fabric, inner_addr}
use srv6_mrc_emulator.Runner.Frame.{Parsed, parse_payload, parse_frame, payload_hdr_len}
use srv6_mrc_emulator.Runner.Receiver.{
  RxFlow, rx_discrete, Receiver, new_receiver, of_self, no_frames, canon, deliver, take_packet,
  take_parsed, take_raw, take_frame, raw_payload, Captured, handle, handle_all,
}
use srv6_mrc_emulator.Runner.Accounts.{IsAccounted, take_trimmed-IsAccounted}
use srv6_mrc_emulator.Runner.Recovery.{delivered-IsAccounted, recover-IsRecovered}

take_packet-IsAccounted :
    (r : Receiver) (nic : ℕ) (flow : RxFlow) (seq plane path now : ℕ)
    → IsAccounted r
    → IsAccounted (take_packet r nic flow seq plane path now)
unfolding take_packet
take_packet-IsAccounted r nic flow seq plane path now h =
    let (s, result, g) =
      recover-IsRecovered r flow seq (find rx_discrete flow r.trim_pending) h refl in
    subst IsAccounted (ap (deliver nic flow seq plane path now) (sym result))
      (delivered-IsAccounted r s flow nic seq plane path now h g)

take_parsed-IsAccounted :
    (r : Receiver) (nic now : ℕ) (flow : RxFlow) (raw : Bytes) (parsed : Option (ℕ × (ℕ × ℕ)))
    → IsAccounted r
    → IsAccounted (take_parsed r nic now flow raw parsed)
take_parsed-IsAccounted r nic now flow raw none h = h
take_parsed-IsAccounted r nic now flow raw (some (seq, (plane, path))) h =
    if_elim IsAccounted (length raw == payload_hdr_len)
      (take_trimmed-IsAccounted r h flow seq plane path now)
      (take_packet-IsAccounted r nic flow seq plane path now h)

take_raw-IsAccounted :
    (r : Receiver) (nic now : ℕ) (p : Parsed) (raw : Option Bytes)
    → IsAccounted r
    → IsAccounted (take_raw r nic now p raw)
take_raw-IsAccounted r nic now p none h = h
take_raw-IsAccounted r nic now p (some raw) h =
    if_elim IsAccounted (same_list p.inner_dst r.self_inner)
      (take_parsed-IsAccounted r nic now (p.inner_src, (p.inner_dst, (p.sport, p.dport))) raw
        (parse_payload raw) h)
      h

take_frame-IsAccounted :
    (r : Receiver) (nic now : ℕ) (p : Option Parsed)
    → IsAccounted r
    → IsAccounted (take_frame r nic now p)
take_frame-IsAccounted r nic now none h = h
take_frame-IsAccounted r nic now (some p) h = take_raw-IsAccounted r nic now p (raw_payload p) h

handle_all-kept :
    (cs : List Captured) (r : Receiver) → IsAccounted r → IsAccounted (handle_all r cs)
unfolding handle_all handle
handle_all-kept [] r h = h
handle_all-kept (c ∷ cs) r h =
    handle_all-kept cs (handle r c) (take_frame-IsAccounted r c.nic c.now (parse_frame c.frame) h)

empty-IsAccounted : (self : Bytes) → IsAccounted (no_frames self)
unfolding find
empty-IsAccounted self = record {
  nics = refl;
  planes = refl;
  tracked = λ flow. refl;
  awaited = λ flow seq. refl;
  unrecovered = λ flow. omega arith;
  known = λ flow s at. absurd cc;
}

of_self-IsAccounted : (addr : Result Text) (r : Receiver) → of_self addr ≡ ok r → IsAccounted r
of_self-IsAccounted (raise e) r h = absurd cc
of_self-IsAccounted (ok addr) r h =
    subst IsAccounted (ok-injective _ r h) (empty-IsAccounted (canon (ipv6_groups addr)))

-- A new receiver that has handled any frames: it counts every delivered packet once by NIC and once by plane, and in
-- the statistics of its flow alone; the numbers that it holds as pending for a flow are, without repetition, those of
-- which it last heard that they were trimmed; and of a flow's trims, those recovered and those pending are no more
-- than all.
pub handle_all-IsAccounted :
    (f : Fabric) (tenant : String) (self_id : ℕ) (r : Receiver) (cs : List Captured)
    → new_receiver f tenant self_id ≡ ok r
    → IsAccounted (handle_all r cs)
unfolding new_receiver
handle_all-IsAccounted f tenant self_id r cs h =
    handle_all-kept cs r (of_self-IsAccounted (inner_addr f tenant self_id) r h)
