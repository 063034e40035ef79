-- ===== src/Tcp/Source/Kept.antt =====
-- What the round-trip time and a retransmission leave of a `TcpSrc` as it is.
use frontier_htsim.Prelude.{
  ℕ, ◌≡◌, refl, true, [], ◌∷◌, ltb, ◌==◌, if◌then◌else◌, if_elim, if_true, add64, sub64, Ensures,
}
use frontier_htsim.Tcp.Source.{
  TcpSrc, sent, time_from_ms, data_packet, start_timer, retransmit_packet,
}
use frontier_htsim.Tcp.Source.Ack.{sample, compute_rtt}
use frontier_htsim.Tcp.Source.Window.{Kept}

Kept-refl : (s : TcpSrc) → Kept s s
Kept-refl s = record {
  mss = refl;
  last_acked = refl;
  flow_size = refl;
  established = refl;
  cwnd = refl;
  ssthresh = refl;
  maxcwnd = refl;
  dupacks = refl;
  recoverq = refl;
  in_fast_recovery = refl;
  dst = refl;
  route = refl;
}

sample-Kept : (m : ℕ) (s : TcpSrc) → Kept s (sample m s)
unfolding sample
sample-Kept m s = record {
  mss = refl;
  last_acked = refl;
  flow_size = refl;
  established = refl;
  cwnd = refl;
  ssthresh = refl;
  maxcwnd = refl;
  dupacks = refl;
  recoverq = refl;
  in_fast_recovery = refl;
  dst = refl;
  route = refl;
}

pub compute_rtt-Kept : (now ts : ℕ) (s : TcpSrc) → Kept s (compute_rtt now ts s)
unfolding compute_rtt
compute_rtt-Kept now ts s = if_elim (Kept s) (ltb s'.rto (time_from_ms 250)) kept kept'
  where
    s' : TcpSrc
    s' = if sub64 now ts == 0 then s else sample (sub64 now ts) s

    kept' : Kept s s'
    kept' = if_elim (Kept s) (sub64 now ts == 0) (Kept-refl s) (sample-Kept _ s)

    kept : Kept s (record s' { rto = time_from_ms 250 })
    kept = record {
      mss = kept'.mss;
      last_acked = kept'.last_acked;
      flow_size = kept'.flow_size;
      established = kept'.established;
      cwnd = kept'.cwnd;
      ssthresh = kept'.ssthresh;
      maxcwnd = kept'.maxcwnd;
      dupacks = kept'.dupacks;
      recoverq = kept'.recoverq;
      in_fast_recovery = kept'.in_fast_recovery;
      dst = kept'.dst;
      route = kept'.route;
    }

pub retransmit-Kept :
    (now : ℕ) (s : TcpSrc)
    → s.established ≡ true
    → Ensures
        (λ s' es. Kept s s' × (es ≡ sent (data_packet now s' (add64 s'.last_acked 1)) ∷ []))
        (retransmit_packet now s)
unfolding retransmit_packet start_timer data_packet
retransmit-Kept now s e =
    if_true
      (Ensures (λ s' es. Kept s s' × (es ≡ sent (data_packet now s' (add64 s'.last_acked 1)) ∷ [])))
      s.established _ _ e
      (
        record {
          mss = refl;
          last_acked = refl;
          flow_size = refl;
          established = refl;
          cwnd = refl;
          ssthresh = refl;
          maxcwnd = refl;
          dupacks = refl;
          recoverq = refl;
          in_fast_recovery = refl;
          dst = refl;
          route = refl;
        },
        refl,
      )
