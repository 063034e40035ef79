-- ===== src/Tcp/Source/Steady/Acks.antt =====
-- The acknowledgements keep the invariant of `TcpSrc`, with room for five segments more.
use frontier_htsim.Prelude.{
  ℕ, ◌+◌, ◌-◌, ◌*◌, ◌/◌, ◌%◌, ◌^◌, ◌≤◌, ◌<◌, ◌≡◌, min, max, Bool, true, not, arith, leb, ltb, ◌==◌,
  if◌then◌else◌, if_elim, if_cases, ◌||◌, Ensures, Ensures-bind,
}
use frontier_htsim.Tcp.Sink.{Ack}
use frontier_htsim.Tcp.Source.{TcpSrc, retransmit_packet, deflate_window}
use frontier_htsim.Tcp.Source.Ack.{
  low32, compute_rtt, inflate_window, restart_timer, normal_ack, end_recovery, partial_ack, new_ack,
  dup_in_recovery, end_sawtooth, begin_recovery, duplicate_ack, receive_packet,
}
use frontier_htsim.Tcp.Source.Steady.Growth.{
  compute_rtt-Steady, compute_rtt_acked, inflate_window-Steady,
}
use frontier_htsim.Tcp.Source.Steady.{
  Steady, Core-mono, Core-window, send_packets-Steady, retransmit_packet-Steady,
  deflate_window-Steady,
}

open_still : (o : Bool) (c : Bool) → o ≡ true → (o || c) ≡ true
open_still o c e = ground (arith, e)

module _ (m b g : ℕ) (small : g < 2 ^ 31) where
  normal_ack-Steady :
      (now seqno : ℕ) (s : TcpSrc)
      → b + 5 * m ≤ g
      → Steady m b (record s { last_acked = seqno })
      → Ensures (λ s' es. Steady m g s') (normal_ack now seqno s)
  unfolding normal_ack
  normal_ack-Steady now seqno s r h =
      Ensures-bind _ _ (inflate_window (record s { last_acked = seqno; dupacks = 0 })) _
        (inflate_window-Steady m b g small _ r h)
        (λ s' es k.
          send_packets-Steady now m g
            (record s' {
              cwnd = min s'.cwnd s'.maxcwnd;
              unacked = min s'.cwnd s'.maxcwnd;
              effcwnd = min s'.cwnd s'.maxcwnd;
            })
            (Core-window m g g (min s'.cwnd s'.maxcwnd) s' (omega arith) small (omega arith)
              (omega arith) k.0))

  end_recovery-Steady :
      (now seqno : ℕ) (s : TcpSrc)
      → b + 5 * m ≤ g
      → Steady m b (record s { last_acked = seqno })
      → Ensures (λ s' es. Steady m g s') (end_recovery now seqno s)
  unfolding end_recovery
  end_recovery-Steady now seqno s r h = send_packets-Steady now m g _ (
      Core-window m b g _ (record s { last_acked = seqno }) (omega arith) small (omega (arith, h))
        (omega (arith, h)) h)

  partial_ack-Steady :
      (now seqno : ℕ) (s : TcpSrc)
      → b + 5 * m ≤ g
      → Steady m b (record s { last_acked = seqno })
      → Ensures (λ s' es. Steady m g s') (partial_ack now seqno s)
  unfolding partial_ack
  partial_ack-Steady now seqno s r h =
      Ensures-bind (λ s' es. Steady m g s' × (s'.mss ≡ s.mss) × (s'.ssthresh ≡ s.ssthresh)) _
        (retransmit_packet now (record s { last_acked = seqno; cwnd = cwnd })) _
        (retransmit_packet-Steady now m g (record s { last_acked = seqno; cwnd = cwnd })
          (Core-window m b g cwnd (record s { last_acked = seqno }) (omega arith) small
            (ground (arith, h)) (ground (arith, h)) h))
        (λ s' es k. send_packets-Steady now m g s' k.0)
    where
      cwnd : ℕ
      cwnd =
          let left =
            if ltb (low32 seqno s.last_acked) s.cwnd
            then s.cwnd - low32 seqno s.last_acked
            else 0 in
          (left + s.mss) % 2 ^ 32

  dup_in_recovery-Steady :
      (now : ℕ) (s : TcpSrc)
      → b + 5 * m ≤ g
      → Steady m b s
      → Ensures (λ s' es. Steady m g s') (dup_in_recovery now s)
  unfolding dup_in_recovery
  dup_in_recovery-Steady now s r h =
      send_packets-Steady now m g _
        (Core-window m b g _ s (omega arith) small (omega arith) (omega arith) h)

  begin_recovery-Steady :
      (now : ℕ) (s : TcpSrc)
      → b + 5 * m ≤ g
      → Steady m b s
      → Ensures (λ s' es. Steady m g s') (begin_recovery now s)
  unfolding begin_recovery end_sawtooth deflate_window
  begin_recovery-Steady now s r h =
      Ensures-bind
        (λ s' es. Steady m b s' × (s'.mss ≡ s.mss) × (s'.ssthresh ≡ max (s.cwnd / 2) (2 * s.mss))) _
        (retransmit_packet now deflated) _
        (retransmit_packet-Steady now m b deflated (deflate_window-Steady m b s h))
        (λ s' es k.
          Core-window m b g ((s'.ssthresh + 3 * s'.mss) % 2 ^ 32) s' (omega arith) small
            (grown s' k).0 (grown s' k).1 k.0)
    where
      deflated : TcpSrc
      deflated = end_sawtooth (deflate_window (record s { drops = (s.drops + 1) % 2 ^ 32 }))

      grown :
          (s' : TcpSrc)
          → Steady m b s' × (s'.mss ≡ s.mss) × (s'.ssthresh ≡ max (s.cwnd / 2) (2 * s.mss))
          → (s'.mss ≤ (s'.ssthresh + 3 * s'.mss) % 2 ^ 32)
            × ((s'.ssthresh + 3 * s'.mss) % 2 ^ 32 ≤ g)
      grown s' k = (omega (arith, k.1, k.2, h, r, small), omega (arith, k.1, k.2, h, r, small))

  -- The state at which a new acknowledgement is counted.
  restart_timer-Steady :
      (now seqno : ℕ) (s : TcpSrc)
      → s.last_acked ≤ seqno
      → seqno ≤ 2 ^ 62
      → Steady m b s
      → Steady m b (record (restart_timer now seqno s) { last_acked = seqno })
  unfolding restart_timer
  restart_timer-Steady now seqno s l n h = record {
    opened = h.opened;
    same_mss = h.same_mss;
    mss_pos = h.mss_pos;
    mss_window = h.mss_window;
    window_most = h.window_most;
    mss_ssthresh = h.mss_ssthresh;
    mss_maxcwnd = h.mss_maxcwnd;
    acked_sent = ground arith;
    sent_most = ground arith;
    acked_most = n;
    small = h.small;
  }

  new_ack-Steady :
      (now seqno : ℕ) (s : TcpSrc)
      → b + 5 * m ≤ g
      → s.last_acked ≤ seqno
      → seqno ≤ 2 ^ 62
      → Steady m b s
      → Ensures (λ s' es. Steady m g s') (new_ack now seqno s)
  unfolding new_ack
  new_ack-Steady now seqno s r l n h =
      if_elim (Ensures (λ s' es. Steady m g s')) s.in_fast_recovery
        (if_elim (Ensures (λ s' es. Steady m g s')) (leb s.recoverq seqno)
          (end_recovery-Steady now seqno (restart_timer now seqno s) r k)
          (partial_ack-Steady now seqno (restart_timer now seqno s) r k))
        (normal_ack-Steady now seqno (restart_timer now seqno s) r k)
    where
      k : Steady m b (record (restart_timer now seqno s) { last_acked = seqno })
      k = restart_timer-Steady now seqno s l n h

  duplicate_ack-Steady :
      (now : ℕ) (s : TcpSrc)
      → b + 5 * m ≤ g
      → Steady m b s
      → Ensures (λ s' es. Steady m g s') (duplicate_ack now s)
  unfolding duplicate_ack
  duplicate_ack-Steady now s r h =
      if_elim (Ensures (λ s' es. Steady m g s')) s.in_fast_recovery
        (dup_in_recovery-Steady now s r h)
        (if_elim (Ensures (λ s' es. Steady m g s')) (not ((s.dupacks + 1) % 2 ^ 16 == 3))
          (send_packets-Steady now m g counted k)
          (if_elim (Ensures (λ s' es. Steady m g s')) (ltb s.last_acked s.recoverq) k
            (begin_recovery-Steady now counted r h)))
    where
      counted : TcpSrc
      counted = record s { dupacks = (s.dupacks + 1) % 2 ^ 16 }

      k : Steady m g counted
      k = Core-mono m b g counted (omega arith) small h

  taken-Steady :
      (s : TcpSrc) (p : Ack)
      → Steady m b s
      → Steady m b (record s { established = s.established || (p.ackno == 1) })
  taken-Steady s p h = record {
    opened = open_still s.established (p.ackno == 1) h.opened;
    same_mss = h.same_mss;
    mss_pos = h.mss_pos;
    mss_window = h.mss_window;
    window_most = h.window_most;
    mss_ssthresh = h.mss_ssthresh;
    mss_maxcwnd = h.mss_maxcwnd;
    acked_sent = h.acked_sent;
    sent_most = h.sent_most;
    acked_most = h.acked_most;
    small = h.small;
  }

  -- The state that the branches of the handler start from.
  pub measured-Steady :
      (now : ℕ) (s : TcpSrc) (p : Ack)
      → Steady m b s
      → Steady m b
          (compute_rtt now p.ts (record s { established = s.established || (p.ackno == 1) }))
  measured-Steady now s p h = compute_rtt-Steady now p.ts m b _ (taken-Steady s p h)

  pub receive_packet-Steady :
      (now : ℕ) (s : TcpSrc) (p : Ack)
      → b + 5 * m ≤ g
      → p.ackno ≤ 2 ^ 62
      → Steady m b s
      → Ensures (λ s' es. Steady m g s') (receive_packet now s p)
  unfolding receive_packet
  receive_packet-Steady now s p r n h =
      if_elim (Ensures (λ s' es. Steady m g s')) (ltb p.ackno s.last_acked)
        (Core-mono m b g s (omega arith) small h)
        (if_cases (Ensures (λ s' es. Steady m g s')) (ltb s.last_acked p.ackno)
          (λ e. new_ack-Steady now p.ackno (compute_rtt now p.ts taken) r (newer e) n k)
          (λ e. duplicate_ack-Steady now (compute_rtt now p.ts taken) r k))
    where
      taken : TcpSrc
      taken = record s { established = s.established || (p.ackno == 1) }

      k : Steady m b (compute_rtt now p.ts taken)
      k = measured-Steady now s p h

      newer : ltb s.last_acked p.ackno ≡ true → (compute_rtt now p.ts taken).last_acked ≤ p.ackno
      newer e = ground (arith, e, compute_rtt_acked now p.ts taken)
