-- ===== src/Tcp/Source/Steady/Runs.antt =====
-- Runs of an established `TcpSrc`: acknowledgements, scans of the timer, timeouts and limits of the
-- application, in any order.
use frontier_htsim.Prelude.{
  ℕ, suc, ◌+◌, ◌-◌, ◌*◌, ◌%◌, ◌^◌, ◌≤◌, ◌<◌, ◌≡◌, min, false, Option, List, [], ◌∷◌, length, arith,
  leb, ◌==◌, if◌then◌else◌, if_elim, if_cases, if_true, add64, Outcome, return, ◌>>=◌, Ensures,
  Ensures-mono, Ensures-bind, Ensures-assert, not, ◌||◌,
}
use frontier_htsim.Tcp.Sink.{Ack}
use frontier_htsim.Tcp.Source.{
  TcpSrc, Effect, time_inf, deflate_window, retransmit_packet, set_app_limit, lifts_limit,
}
use frontier_htsim.Tcp.Source.Ack.{low32, end_sawtooth, receive_packet}
use frontier_htsim.Tcp.Source.Timer.{rtx_timer_hook, time_out, do_next_event}
use frontier_htsim.Tcp.Source.Steady.{
  Steady, Core-mono, send_packets-Steady, retransmit_packet-Steady,
}
use frontier_htsim.Tcp.Source.Steady.Acks.{receive_packet-Steady}

pub data Event : Type 0 where
  acked : ℕ → Ack → Event
  scanned : ℕ → ℕ → Event
  fired : ℕ → Event
  limited : ℕ → Option ℕ → Event

-- The event of the source fires only when the hook has asked for it.
abbrev pub step : Event → TcpSrc → Outcome Effect TcpSrc
step (acked now p) s = receive_packet now s p
step (scanned now period) s = rtx_timer_hook now period s
step (fired now) s = if s.rtx_timeout_pending then do_next_event now s else return s
step (limited now limit) s = set_app_limit now s limit

abbrev pub run : List Event → TcpSrc → Outcome Effect TcpSrc
run [] s = return s
run (e ∷ es) s = step e s >>= λ s'. run es s'

-- No acknowledgement is beyond byte 2 ^ 62.
abbrev pub Acked : List Event → Type 0
Acked [] = Unit {0}
Acked (acked now p ∷ es) = (p.ackno ≤ 2 ^ 62) × Acked es
Acked (e ∷ es) = Acked es

module _ (m b g : ℕ) (small : g < 2 ^ 31) where
  rtx_timer_hook-Steady :
      (now period : ℕ) (s : TcpSrc)
      → b + 5 * m ≤ g
      → Steady m b s
      → Ensures (λ s' es. Steady m g s') (rtx_timer_hook now period s)
  unfolding rtx_timer_hook
  rtx_timer_hook-Steady now period s r h =
      if_elim (Ensures (λ s' es. Steady m g s'))
        (leb now s.rto_timeout || (s.rto_timeout == time_inf) || (s.highest_sent == 0)) k
        (Ensures-assert _ (not (s.mss == 0)) _ (ground (arith, h.mss_pos))
          (if_elim (Ensures (λ s' es. Steady m g s')) s.rtx_timeout_pending k k))
    where
      k : Steady m g s
      k = Core-mono m b g s (omega arith) small h

  time_out-Steady :
      (now : ℕ) (s : TcpSrc)
      → b + 5 * m ≤ g
      → Steady m b s
      → Ensures (λ s' es. Steady m g s') (time_out now s)
  unfolding time_out deflate_window end_sawtooth
  time_out-Steady now s r h =
      Ensures-bind (λ s' es. Steady m g s' × (s'.mss ≡ s.mss) × (s'.ssthresh ≡ reset.ssthresh)) _
        (retransmit_packet now reset) _ (retransmit_packet-Steady now m g reset steady)
        (λ s' es k. k.0)
    where
      shrunk : ℕ
      shrunk = min s.ssthresh ((low32 s.highest_sent s.last_acked + s.mss) % 2 ^ 32)

      back : ℕ
      back = if s.established then add64 s.last_acked s.mss else s.highest_sent

      reset : TcpSrc
      reset =
          let cwnd = if s.in_fast_recovery then shrunk else s.cwnd in
          let deflated = deflate_window (record s { cwnd = cwnd; rtx_timeout_pending = false }) in
          record deflated {
            cwnd = s.mss;
            unacked = s.mss;
            effcwnd = s.mss;
            in_fast_recovery = false;
            recoverq = s.highest_sent;
            highest_sent = back;
            dupacks = 0;
          }

      back_is : back ≡ s.last_acked + s.mss
      back_is = ground (arith, h)

      steady : Steady m g reset
      steady = record {
        opened = h.opened;
        same_mss = h.same_mss;
        mss_pos = h.mss_pos;
        mss_window = omega arith;
        window_most = omega (arith, h, r);
        mss_ssthresh = omega arith;
        mss_maxcwnd = h.mss_maxcwnd;
        acked_sent = omega (arith, back_is);
        sent_most = omega (arith, back_is, h, r);
        acked_most = h.acked_most;
        small = small;
      }

  set_app_limit-Steady :
      (now : ℕ) (s : TcpSrc) (limit : Option ℕ)
      → b + 5 * m ≤ g
      → Steady m b s
      → Ensures (λ s' es. Steady m g s') (set_app_limit now s limit)
  unfolding set_app_limit
  set_app_limit-Steady now s limit r h =
      send_packets-Steady now m g
        (record s {
          cwnd = if lifts_limit s.app_limited limit then s.mss else s.cwnd;
          ssthresh = 2 ^ 32 - 1;
          app_limited = limit;
        })
        record {
          opened = h.opened;
          same_mss = h.same_mss;
          mss_pos = h.mss_pos;
          mss_window = ground (arith, h);
          window_most = ground (arith, h, r);
          mss_ssthresh = omega (arith, h, r, small);
          mss_maxcwnd = h.mss_maxcwnd;
          acked_sent = h.acked_sent;
          sent_most = omega (arith, h, r);
          acked_most = h.acked_most;
          small = small;
        }

  fired-Steady :
      (now : ℕ) (s : TcpSrc)
      → b + 5 * m ≤ g
      → Steady m b s
      → Ensures (λ s' es. Steady m g s') (step (fired now) s)
  unfolding do_next_event
  fired-Steady now s r h =
      if_cases (Ensures (λ s' es. Steady m g s')) s.rtx_timeout_pending
        (λ e.
          if_true (Ensures (λ s' es. Steady m g s')) s.rtx_timeout_pending _ _ e
            (time_out-Steady now s r h))
        (λ e. Core-mono m b g s (omega arith) small h)

  step-Steady :
      (e : Event) (s : TcpSrc)
      → b + 5 * m ≤ g
      → Acked (e ∷ [])
      → Steady m b s
      → Ensures (λ s' es. Steady m g s') (step e s)
  step-Steady (acked now p) s r n h = receive_packet-Steady m b g small now s p r n.0 h
  step-Steady (scanned now period) s r n h = rtx_timer_hook-Steady now period s r h
  step-Steady (fired now) s r n h = fired-Steady now s r h
  step-Steady (limited now limit) s r n h = set_app_limit-Steady now s limit r h

Acked-head : (e : Event) (es : List Event) → Acked (e ∷ es) → Acked (e ∷ [])
Acked-head (acked now p) es a = (a.0, tt)
Acked-head (scanned now period) es a = tt
Acked-head (fired now) es a = tt
Acked-head (limited now limit) es a = tt

Acked-tail : (e : Event) (es : List Event) → Acked (e ∷ es) → Acked es
Acked-tail (acked now p) es a = a.1
Acked-tail (scanned now period) es a = a
Acked-tail (fired now) es a = a
Acked-tail (limited now limit) es a = a

-- Let an established source have a segment size `m`, not 0, a window, a threshold and a maximal
-- window of at least a segment, acknowledgements up to byte 2 ^ 62 that are not beyond what it sent,
-- and at most `b` bytes in its window and in flight. After any `k` acknowledgements up to byte 2 ^
-- 62, scans of the timer, events that the source asked for, and limits of the application, with `b +
-- k * 5 m` below 2 ^ 31, no assertion has failed and nothing was divided by 0, and the same holds
-- with `b + k * 5 m` in place of `b`.
pub run-Steady :
    (m b : ℕ) (es : List Event) (s : TcpSrc)
    → b + length es * (5 * m) < 2 ^ 31
    → Acked es
    → Steady m b s
    → Ensures (λ s' fx. Steady m (b + length es * (5 * m)) s') (run es s)
run-Steady m b [] s r a h = Core-mono m b (b + 0 * (5 * m)) s (omega arith) r h
run-Steady m b (e ∷ es) s r a h =
    Ensures-bind (λ s' fx. Steady m (b + 5 * m) s') _ (step e s) (run es)
      (step-Steady m b (b + 5 * m) (omega (arith, r)) e s (omega arith) (Acked-head e es a) h)
      (λ s' fx k.
        Ensures-mono _ _ (run es s')
          (λ s'' fx' t. Core-mono m _ (b + suc (length es) * (5 * m)) s'' (omega arith) r t)
          (run-Steady m (b + 5 * m) es s' (omega (arith, r)) (Acked-tail e es a) k))
