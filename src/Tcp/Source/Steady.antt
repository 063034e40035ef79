-- ===== src/Tcp/Source/Steady.antt =====
-- An invariant of an established `TcpSrc`: the window has room for a segment, and what is in flight is
-- bounded, so no sum wraps and no division is by 0.
pub mod Growth
pub mod Acks
pub mod Runs
use frontier_htsim.Prelude.{
  ℕ, zero, suc, ◌+◌, ◌-◌, ◌*◌, ◌/◌, ◌%◌, ◌^◌, ◌≤◌, ◌<◌, ◌≡◌, refl, ◌⊎◌, ◌∙◌, Option, none, some,
  min, max, inl, inr, Bool, true, false, List, arith, leb, ltb, ◌==◌, if◌then◌else◌, if_true, add64,
  sub64, Bool-cases, Outcome, Ensures, Ensures-mono, Ensures-bind, Ensures-after,
}
use frontier_htsim.Tcp.Source.{
  TcpSrc, Effect, cut, window, send_packets, start_timer, retransmit_packet, deflate_window,
}
use frontier_htsim.Tcp.Source.Window.{Kept, Room, Sends, send_packets-window}

-- With windows of at most `b` bytes, and acknowledgements below byte 2 ^ 62.
pub record Core (m b : ℕ) (established : Bool) (mss cwnd ssthresh maxcwnd acked highest : ℕ)
    : Type 0 where
  pub opened : established ≡ true
  pub same_mss : mss ≡ m
  pub mss_pos : 0 < mss
  pub mss_window : mss ≤ cwnd
  pub window_most : cwnd ≤ b
  pub mss_ssthresh : mss ≤ ssthresh
  pub mss_maxcwnd : mss ≤ maxcwnd
  pub acked_sent : acked ≤ highest
  pub sent_most : highest ≤ acked + b
  pub acked_most : acked ≤ 2 ^ 62
  pub small : b < 2 ^ 31

abbrev pub Steady : ℕ → ℕ → TcpSrc → Type 0
Steady m b s = Core m b s.established s.mss s.cwnd s.ssthresh s.maxcwnd s.last_acked s.highest_sent

cut_most : (o : Option ℕ) (s : TcpSrc) → cut o s ≤ s.cwnd
unfolding cut
cut_most none s = omega arith
cut_most (some limit) s = ground arith

window_most : (s : TcpSrc) → window s ≤ s.cwnd
unfolding window
window_most s = cut_most s.app_limited s

pub Steady-Room : (m b : ℕ) (s : TcpSrc) → Steady m b s → Room (window s) s
Steady-Room m b s h = record {
  mss_pos = h.mss_pos;
  sent_room = omega (arith, h.mss_window, h.window_most, h.sent_most, h.acked_most, h.small);
  window_room = omega (arith, window_most s, h.mss_window, h.window_most, h.acked_most, h.small);
}

pub send_packets-Steady :
    (now m b : ℕ) (s : TcpSrc)
    → Steady m b s
    → Ensures (λ s' es. Steady m b s') (send_packets now s)
send_packets-Steady now m b s h =
    Ensures-mono _ _ _ after (send_packets-window now s h.opened h.acked_sent (Steady-Room m b s h))
  where
    after : (s' : TcpSrc) (es : List Effect) → Sends now (window s) s s' es → Steady m b s'
    after s' es d = record {
      opened = d.kept.established ∙ h.opened;
      same_mss = d.kept.mss ∙ h.same_mss;
      mss_pos = omega arith;
      mss_window = omega arith;
      window_most = omega arith;
      mss_ssthresh = omega arith;
      mss_maxcwnd = omega arith;
      acked_sent = omega arith;
      sent_most = omega (arith, window_most s);
      acked_most = omega arith;
      small = h.small;
    }

pub Core-mono : (m b g : ℕ) (s : TcpSrc) → b ≤ g → g < 2 ^ 31 → Steady m b s → Steady m g s
Core-mono m b g s l sm h = record {
  opened = h.opened;
  same_mss = h.same_mss;
  mss_pos = h.mss_pos;
  mss_window = h.mss_window;
  window_most = omega arith;
  mss_ssthresh = h.mss_ssthresh;
  mss_maxcwnd = h.mss_maxcwnd;
  acked_sent = h.acked_sent;
  sent_most = omega arith;
  acked_most = h.acked_most;
  small = sm;
}

-- Another window.
pub Core-window :
    (m b g cwnd : ℕ) (s : TcpSrc)
    → b ≤ g
    → g < 2 ^ 31
    → s.mss ≤ cwnd
    → cwnd ≤ g
    → Steady m b s
    → Core m g s.established s.mss cwnd s.ssthresh s.maxcwnd s.last_acked s.highest_sent
Core-window m b g cwnd s l sm k n h = record {
  opened = h.opened;
  same_mss = h.same_mss;
  mss_pos = h.mss_pos;
  mss_window = k;
  window_most = n;
  mss_ssthresh = h.mss_ssthresh;
  mss_maxcwnd = h.mss_maxcwnd;
  acked_sent = h.acked_sent;
  sent_most = omega arith;
  acked_most = h.acked_most;
  small = sm;
}

-- The packet of a retransmission leaves the invariant as it is.
pub retransmit_packet-Steady :
    (now m b : ℕ) (s : TcpSrc)
    → Steady m b s
    → Ensures
        (λ s' es. Steady m b s' × (s'.mss ≡ s.mss) × (s'.ssthresh ≡ s.ssthresh))
        (retransmit_packet now s)
unfolding retransmit_packet start_timer
retransmit_packet-Steady now m b s h =
    if_true (Ensures (λ s' es. Steady m b s' × (s'.mss ≡ s.mss) × (s'.ssthresh ≡ s.ssthresh)))
      s.established _ _ h.opened (h, refl, refl)

pub deflate_window-Steady : (m b : ℕ) (s : TcpSrc) → Steady m b s → Steady m b (deflate_window s)
unfolding deflate_window
deflate_window-Steady m b s h = record {
  opened = h.opened;
  same_mss = h.same_mss;
  mss_pos = h.mss_pos;
  mss_window = h.mss_window;
  window_most = h.window_most;
  mss_ssthresh = omega arith;
  mss_maxcwnd = h.mss_maxcwnd;
  acked_sent = h.acked_sent;
  sent_most = h.sent_most;
  acked_most = h.acked_most;
  small = h.small;
}
