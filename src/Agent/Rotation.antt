-- ===== src/Agent/Rotation.antt =====
-- srv6_mrc/mrc/agent.py: `_rotate_window` after any calls.
use srv6_mrc_emulator.Common.{
  ℕ, ◌+◌, ◌<◌, ◌≡◌, ◌∙◌, ap, refl, inl, inr, List, Option, if◌then◌else◌, arith, Bool-cases,
  push_bounded, ok,
}
use srv6_mrc_emulator.Topo.Defs.{Shape}
use srv6_mrc_emulator.SentCounters.Cells.{cell, cell_or_zero}
use srv6_mrc_emulator.LossCompute.Ring.{SentWindow, SentWindowRing}
use srv6_mrc_emulator.Agent.Sender.{
  SenderMrcAgent, add_delta, rows_of_window, any_row, rotate_window, closed, keep_ring,
}
use srv6_mrc_emulator.Agent.Windows.{add_delta-cell, rows_of_window-cell, push-rows_of_window}
use srv6_mrc_emulator.Agent.Calls.{
  Call, take_calls, packets_sent, take_calls-SameRing, take_calls-count,
}

-- The window that a rotation closes.
abbrev pub closing : Shape → SenderMrcAgent → Option (List (List ℕ)) → ℕ → SentWindow
closing sh a delta now_ns = record {
  start_ns = a.current_window_start_ns;
  end_ns = now_ns;
  sent = rows_of_window sh (add_delta sh delta a.current_window_sent);
  window_id = a.current_window_id;
}

-- The windows of the ring once a window is closed: one without a packet is not kept.
abbrev pub with_window : SentWindowRing → SentWindow → List SentWindow
with_window r w = if any_row w.sent then push_bounded r.capacity r.ring w else r.ring

rotate_window_lem :
    (sh : Shape) (a : SenderMrcAgent) (delta : Option (List (List ℕ))) (now_ns : ℕ)
    → a.sent_ring.num_planes ≡ sh.num_planes
    → a.sent_ring.num_paths ≡ sh.num_spines
    → rotate_window sh a delta now_ns ≡ (
      record (closed a now_ns) {
        sent_ring = record (a.sent_ring) {
          ring = with_window a.sent_ring (closing sh a delta now_ns);
        };
      },
      ok tt,
    )
unfolding rotate_window
rotate_window_lem sh a delta now_ns hn hm =
    elim (Bool-cases (any_row (closing sh a delta now_ns).sent)) [
      | inl e ↦ rw (e) (
          ap (keep_ring (closed a now_ns)) (
            push-rows_of_window sh a.sent_ring (add_delta sh delta a.current_window_sent)
              a.current_window_start_ns now_ns a.current_window_id hn hm))
      | inr e ↦ rw (e) refl
    ]

pub record IsWindow (sh : Shape) (cs : List Call) (delta : Option (List (List ℕ))) (start stop : ℕ)
    (w : SentWindow) : Type 0 where
  pub starts : w.start_ns ≡ start
  pub ends : w.end_ns ≡ stop
  pub counts :
      (p q : ℕ)
      → p < sh.num_planes
      → q < sh.num_spines
      → cell p q w.sent ≡ packets_sent p q cs + cell_or_zero p q delta

-- A window counts exactly the packets between two rotations: take an agent whose ring has the
-- topology's shape, rotate it at `t`, let any calls `cs` come (packets, probes out and back, ticks,
-- loss reports of any bytes), and rotate it again at `stop`. The second rotation does not raise. The
-- window it closes runs from `t` to `stop`, and has on each EV the packets of `cs` on it and the count
-- that the other process reports for it; whatever the first rotation closed is in none of them. The
-- ring takes the window unless it has no packet at all, and is else as the first rotation left it.
pub rotate_window-IsWindow :
    (sh : Shape) (a : SenderMrcAgent) (before delta : Option (List (List ℕ))) (t stop : ℕ)
    (cs : List Call)
    → a.sent_ring.num_planes ≡ sh.num_planes
    → a.sent_ring.num_paths ≡ sh.num_spines
    → let first = (rotate_window sh a before t).0 in
      let last = rotate_window sh (take_calls sh first cs) delta stop in
      (w : SentWindow) × IsWindow sh cs delta t stop w
      × (last.0.sent_ring.ring ≡ with_window first.sent_ring w)
      × (last.1 ≡ ok tt)
rotate_window-IsWindow sh a before delta t stop cs hn hm =
    let e = rotate_window_lem sh a before t hn hm in
    let first = (rotate_window sh a before t).0 in
    let planes : first.sent_ring.num_planes ≡ sh.num_planes =
      ap (λ x. x.0.sent_ring.num_planes) e ∙ hn in
    let paths : first.sent_ring.num_paths ≡ sh.num_spines =
      ap (λ x. x.0.sent_ring.num_paths) e ∙ hm in
    let now = take_calls sh first cs in
    let same = take_calls-SameRing sh first cs in
    let again =
      rotate_window_lem sh now delta stop
        (ap (λ (r : SentWindowRing). r.num_planes) same.same_windows ∙ planes)
        (ap (λ (r : SentWindowRing). r.num_paths) same.same_windows ∙ paths) in
    let w = closing sh now delta stop in
    (
      w,
      record {
        starts = same.same_start ∙ ap (λ x. x.0.current_window_start_ns) e;
        ends = refl;
        counts = λ p q hp hq.
            let counted =
              take_calls-count sh p q hp hq 0 first cs (ap (λ x. x.0.current_window_sent p q) e) in
            rows_of_window-cell sh (add_delta sh delta now.current_window_sent) p q hp hq
            ∙ add_delta-cell sh delta now.current_window_sent p q hp hq
            ∙ ap (λ (k : ℕ). k + cell_or_zero p q delta) (counted ∙ omega arith);
      },
      ap (λ x. x.0.sent_ring.ring) again
          ∙ ap (λ (r : SentWindowRing). with_window r w) same.same_windows,
      ap (λ x. x.1) again,
    )
