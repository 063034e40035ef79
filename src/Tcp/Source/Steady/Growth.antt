-- ===== src/Tcp/Source/Steady/Growth.antt =====
-- The round-trip time leaves the invariant of `TcpSrc` as it is, and `inflate_window` keeps it with room
-- for one segment more.
use frontier_htsim.Prelude.{
  ℕ, ◌+◌, ◌*◌, ◌/◌, ◌%◌, ◌^◌, ◌≤◌, ◌<◌, ◌≡◌, refl, not, arith, leb, ltb, ◌==◌, if◌then◌else◌,
  if_elim, add64, sub64, Ensures, Ensures-assert,
}
use frontier_htsim.Tcp.Source.{TcpSrc, time_from_ms}
use frontier_htsim.Tcp.Source.Ack.{low32, sample, compute_rtt, additive_increase, inflate_window}
use frontier_htsim.Tcp.Source.Steady.{Core, Steady, Core-mono, Core-window}

pub compute_rtt-Steady :
    (now ts m b : ℕ) (s : TcpSrc) → Steady m b s → Steady m b (compute_rtt now ts s)
unfolding compute_rtt sample
compute_rtt-Steady now ts m b s h = if_elim (Steady m b) (ltb s'.rto (time_from_ms 250)) kept kept
  where
    s' : TcpSrc
    s' = if sub64 now ts == 0 then s else sample (sub64 now ts) s

    kept : Steady m b s'
    kept = if_elim (Steady m b) (sub64 now ts == 0) h h

pub compute_rtt_acked : (now ts : ℕ) (s : TcpSrc) → (compute_rtt now ts s).last_acked ≡ s.last_acked
unfolding compute_rtt sample
compute_rtt_acked now ts s =
    if_elim (λ (t : TcpSrc). t.last_acked ≡ s.last_acked) (ltb s'.rto (time_from_ms 250)) kept kept
  where
    s' : TcpSrc
    s' = if sub64 now ts == 0 then s else sample (sub64 now ts) s

    kept : s'.last_acked ≡ s.last_acked
    kept = if_elim (λ (t : TcpSrc). t.last_acked ≡ s.last_acked) (sub64 now ts == 0) refl refl

-- `newly_acked` is at most a segment, so the window grows by at most a segment.
growth_most : (n m c : ℕ) → n ≤ m → m ≤ c → 0 < m → n * m % 2 ^ 32 / c ≤ m
growth_most n m c h k p = grind (arith, quotient)
  where
    quotient : (n * m % 2 ^ 32 / c) * c ≤ n * m
    quotient = grind arith

module _ (m b g : ℕ) (small : g < 2 ^ 31) where
  additive_increase-Steady :
      (n : ℕ) (s : TcpSrc)
      → n ≤ s.mss
      → b + 5 * m ≤ g
      → Steady m b s
      → Ensures (λ s' es. Steady m g s' × (s'.mss ≡ s.mss)) (additive_increase n s)
  unfolding additive_increase
  additive_increase-Steady n s l r h =
      Ensures-assert _ (not (s.mss == 0)) _ (ground (arith, h.mss_pos)) (
        Ensures-assert _ (not (s.cwnd == 0)) _ (ground (arith, h.mss_pos, h.mss_window)) (
          if_elim (Ensures (λ s' es. Steady m g s' × (s'.mss ≡ s.mss)))
            (s.cwnd / s.mss == cwnd / s.mss) (grown, refl) (grown, refl)))
    where
      cwnd : ℕ
      cwnd = (s.cwnd + (n * s.mss) % 2 ^ 32 / s.cwnd) % 2 ^ 32

      grown : Core m g s.established s.mss cwnd s.ssthresh s.maxcwnd s.last_acked s.highest_sent
      grown =
          Core-window m b g cwnd s (omega arith) small
            (omega (arith, growth_most n s.mss s.cwnd l h.mss_window h.mss_pos))
            (omega (arith, growth_most n s.mss s.cwnd l h.mss_window h.mss_pos)) h

  pub inflate_window-Steady :
      (s : TcpSrc)
      → b + 5 * m ≤ g
      → Steady m b s
      → Ensures (λ s' es. Steady m g s' × (s'.mss ≡ s.mss)) (inflate_window s)
  unfolding inflate_window
  inflate_window-Steady s r h =
      if_elim (Ensures (λ s' es. Steady m g s' × (s'.mss ≡ s.mss)))
        (leb (2 ^ 31) (low32 (add64 s.last_acked s.cwnd) s.highest_sent))
        (Core-mono m b g s (omega arith) small h, refl)
        (if_elim (Ensures (λ s' es. Steady m g s' × (s'.mss ≡ s.mss))) (ltb s.cwnd s.ssthresh)
          (Core-window m b g _ s (omega arith) small (omega arith) (omega arith) h, refl)
          (additive_increase-Steady _ s (omega arith) r h))
