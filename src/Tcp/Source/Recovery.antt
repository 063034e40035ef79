-- ===== src/Tcp/Source/Recovery.antt =====
-- How `TcpSrc` begins fast recovery: the third duplicate of an acknowledgement halves the window and
-- sends the first segment that is not acknowledged.
use frontier_htsim.Prelude.{
  ℕ, suc, ◌+◌, ◌*◌, ◌/◌, ◌%◌, ◌^◌, max, ◌≤◌, ◌<◌, ◌≡◌, refl, sym, subst, ap, ◌∙◌, true, false, not,
  ◌||◌, List, [], ◌∷◌, ◌++◌, append-nil, append_assoc, arith, ltb, ◌==◌, if_true, if_false, add64,
  Outcome, Ensures, Ensures-mono, Ensures-bind, Ensures-both,
}
use frontier_htsim.Tcp.Sink.{Ack}
use frontier_htsim.Tcp.Source.{
  TcpSrc, Effect, sent, window, data_packet, send_packets, retransmit_packet, deflate_window,
}
use frontier_htsim.Tcp.Source.Ack.{
  compute_rtt, end_sawtooth, begin_recovery, duplicate_ack, receive_packet,
}
use frontier_htsim.Tcp.Source.Window.{Kept, Sends, send_packets-window}
use frontier_htsim.Tcp.Source.Kept.{compute_rtt-Kept, retransmit-Kept}
use frontier_htsim.Tcp.Source.Steady.{Steady, Steady-Room, send_packets-Steady}
use frontier_htsim.Tcp.Source.Steady.Acks.{measured-Steady}
use frontier_htsim.Tcp.Source.Steady.Runs.{acked, run}

-- A source with `n` duplicates of the acknowledgement `a`, outside fast recovery.
pub record Counted (m b cwnd a n : ℕ) (s : TcpSrc) : Type 0 where
  pub steady : Steady m b s
  pub same_cwnd : s.cwnd ≡ cwnd
  pub same_acked : s.last_acked ≡ a
  pub recovered : s.recoverq ≤ a
  pub normal : s.in_fast_recovery ≡ false
  pub count : s.dupacks ≡ n

-- The state that the branches of `receivePacket` start from.
abbrev measured : ℕ → TcpSrc → Ack → TcpSrc
measured now s p = compute_rtt now p.ts (record s { established = s.established || (p.ackno == 1) })

receive_duplicate :
    (now : ℕ) (s : TcpSrc) (p : Ack)
    → p.ackno ≡ s.last_acked
    → receive_packet now s p ≡ duplicate_ack now (measured now s p)
unfolding receive_packet
receive_duplicate now s p e =
    if_false (λ (o : Outcome Effect TcpSrc). o ≡ duplicate_ack now (measured now s p))
      (ltb p.ackno s.last_acked) _ _ (ground (arith, e))
      (if_false (λ (o : Outcome Effect TcpSrc). o ≡ duplicate_ack now (measured now s p))
        (ltb s.last_acked p.ackno) _ _ (ground (arith, e)) refl)

-- A source that has begun fast recovery from the window `cwnd`, and what it sent last.
pub record Begun (now m cwnd a : ℕ) (s : TcpSrc) (es : List Effect) : Type 0 where
  pub recovering : s.in_fast_recovery ≡ true
  pub half : s.ssthresh ≡ max (cwnd / 2) (2 * m)
  pub inflated : s.cwnd ≡ s.ssthresh + 3 * m
  pub until : s.recoverq ≡ s.highest_sent
  pub before : List Effect
  pub resent : es ≡ before ++ sent (data_packet now s (a + 1)) ∷ []

module _ (m b cwnd a : ℕ) (room : b + 5 * m < 2 ^ 31) where
  measured-Counted :
      (n now : ℕ) (s : TcpSrc) (p : Ack)
      → Counted m b cwnd a n s
      → Counted m b cwnd a n (measured now s p)
  measured-Counted n now s p c = record {
    steady = measured-Steady m b b c.steady.small now s p c.steady;
    same_cwnd = k.cwnd ∙ c.same_cwnd;
    same_acked = k.last_acked ∙ c.same_acked;
    recovered = omega (arith, k.recoverq, c.recovered);
    normal = k.in_fast_recovery ∙ c.normal;
    count = k.dupacks ∙ c.count;
  }
    where
      k : Kept (record s { established = s.established || (p.ackno == 1) }) (measured now s p)
      k = compute_rtt-Kept now p.ts _

  duplicate-Counted :
      (n now : ℕ) (s : TcpSrc)
      → Counted m b cwnd a n s
      → suc n < 3
      → Ensures (λ s' es. Counted m b cwnd a (suc n) s') (duplicate_ack now s)
  unfolding duplicate_ack
  duplicate-Counted n now s c l =
      if_false (Ensures (λ s' es. Counted m b cwnd a (suc n) s')) s.in_fast_recovery _ _ c.normal (
        if_true (Ensures (λ s' es. Counted m b cwnd a (suc n) s'))
          (not ((s.dupacks + 1) % 2 ^ 16 == 3)) _ _ (ground (arith, c.count, l))
          (Ensures-mono _ _ _ after (
            Ensures-both (λ s' es. Steady m b s') (Sends now (window more) more)
              (send_packets now more) (send_packets-Steady now m b more c.steady)
              (send_packets-window now more c.steady.opened c.steady.acked_sent
                (Steady-Room m b more c.steady)))))
    where
      more : TcpSrc
      more = record s { dupacks = (s.dupacks + 1) % 2 ^ 16 }

      after :
          (s' : TcpSrc) (es : List Effect)
          → Steady m b s' × Sends now (window more) more s' es
          → Counted m b cwnd a (suc n) s'
      after s' es k = record {
        steady = k.0;
        same_cwnd = k.1.kept.cwnd ∙ c.same_cwnd;
        same_acked = k.1.kept.last_acked ∙ c.same_acked;
        recovered = omega (arith, k.1.kept.recoverq, c.recovered);
        normal = k.1.kept.in_fast_recovery ∙ c.normal;
        count = k.1.kept.dupacks ∙ omega (arith, c.count, l);
      }

  receive-Counted :
      (n now : ℕ) (s : TcpSrc) (p : Ack)
      → Counted m b cwnd a n s
      → p.ackno ≡ a
      → suc n < 3
      → Ensures (λ s' es. Counted m b cwnd a (suc n) s') (receive_packet now s p)
  receive-Counted n now s p c e l =
      subst (Ensures (λ s' es. Counted m b cwnd a (suc n) s'))
        (sym (receive_duplicate now s p (e ∙ sym c.same_acked)))
        (duplicate-Counted n now (measured now s p) (measured-Counted n now s p c) l)

  recovery-Begun :
      (now : ℕ) (s : TcpSrc)
      → Steady m b s
      → s.cwnd ≡ cwnd
      → s.last_acked ≡ a
      → Ensures (Begun now m cwnd a) (begin_recovery now s)
  unfolding begin_recovery end_sawtooth deflate_window data_packet
  recovery-Begun now s h c e =
      Ensures-bind
        (λ s' es. Kept deflated s' × (es ≡ sent (data_packet now s' (add64 s'.last_acked 1)) ∷ []))
        _ (retransmit_packet now deflated) _ (retransmit-Kept now deflated h.opened) after
    where
      deflated : TcpSrc
      deflated = end_sawtooth (deflate_window (record s { drops = (s.drops + 1) % 2 ^ 32 }))

      after :
          (s' : TcpSrc) (es : List Effect)
          → Kept deflated s' × (es ≡ sent (data_packet now s' (add64 s'.last_acked 1)) ∷ [])
          → Begun now m cwnd a
              (record s' {
                cwnd = (s'.ssthresh + 3 * s'.mss) % 2 ^ 32;
                unacked = s'.ssthresh;
                effcwnd = 0;
                in_fast_recovery = true;
                recoverq = s'.highest_sent;
              })
              (es ++ [])
      after s' es k = record {
        recovering = refl;
        half = omega (arith, k.0.ssthresh, c, h);
        inflated = omega (arith, k.0.ssthresh, k.0.mss, c, h, room);
        until = refl;
        before = [];
        resent =
            append-nil es
            ∙ k.1
            ∙ ap (λ q. sent (data_packet now s' q) ∷ []) (omega (arith, k.0.last_acked, e, h));
      }

  -- What the third duplicate does to a source that has counted two.
  begins :
      (now : ℕ) (s : TcpSrc)
      → Counted m b cwnd a 2 s
      → Ensures (Begun now m cwnd a) (duplicate_ack now s)
  unfolding duplicate_ack
  begins now s c = if_false (Ensures (Begun now m cwnd a)) s.in_fast_recovery _ _ c.normal (
      if_false (Ensures (Begun now m cwnd a)) (not ((s.dupacks + 1) % 2 ^ 16 == 3)) _ _
        (ground (arith, c.count))
        (if_false (Ensures (Begun now m cwnd a)) (ltb s.last_acked s.recoverq) _ _
          (ground (arith, c.recovered, c.same_acked))
          (recovery-Begun now (record s { dupacks = (s.dupacks + 1) % 2 ^ 16 }) c.steady c.same_cwnd
            c.same_acked)))

  receive-Begun :
      (now : ℕ) (s : TcpSrc) (p : Ack)
      → Counted m b cwnd a 2 s
      → p.ackno ≡ a
      → Ensures (Begun now m cwnd a) (receive_packet now s p)
  receive-Begun now s p c e =
      subst (Ensures (Begun now m cwnd a)) (sym (receive_duplicate now s p (e ∙ sym c.same_acked)))
        (begins now (measured now s p) (measured-Counted 2 now s p c))

-- Effects before the last ones.
Begun-after :
    (now m cwnd a : ℕ) (s : TcpSrc) (fs es : List Effect)
    → Begun now m cwnd a s es
    → Begun now m cwnd a s (fs ++ es)
Begun-after now m cwnd a s fs es h = record {
  recovering = h.recovering;
  half = h.half;
  inflated = h.inflated;
  until = h.until;
  before = fs ++ h.before;
  resent = ap (λ rest. fs ++ rest) h.resent ∙ sym (append_assoc fs h.before _);
}

-- Let what `run-Steady` assumes hold of a source that has no duplicate acknowledgements, is not in
-- fast recovery, and whose last recovery is acknowledged, with room for five segments. Three
-- acknowledgements of what is already acknowledged put it into fast recovery until the highest byte
-- sent, with the threshold at half the window or two segments, the window three segments above it,
-- and the first segment that is not acknowledged sent last.
pub three_duplicates :
    (m b n1 n2 n3 : ℕ) (s : TcpSrc) (p1 p2 p3 : Ack)
    → b + 5 * m < 2 ^ 31
    → Steady m b s
    → s.dupacks ≡ 0
    → s.in_fast_recovery ≡ false
    → s.recoverq ≤ s.last_acked
    → p1.ackno ≡ s.last_acked
    → p2.ackno ≡ s.last_acked
    → p3.ackno ≡ s.last_acked
    → Ensures
        (Begun n3 m s.cwnd s.last_acked)
        (run (acked n1 p1 ∷ acked n2 p2 ∷ acked n3 p3 ∷ []) s)
three_duplicates m b n1 n2 n3 s p1 p2 p3 room h d f r e1 e2 e3 =
    Ensures-bind (λ s' es. Counted m b s.cwnd s.last_acked 1 s') _ (receive_packet n1 s p1) _
      (receive-Counted m b s.cwnd s.last_acked room 0 n1 s p1 start e1 (omega arith))
      (λ s' es c.
        Ensures-bind (λ s' es. Counted m b s.cwnd s.last_acked 2 s') _ (receive_packet n2 s' p2) _
          (receive-Counted m b s.cwnd s.last_acked room 1 n2 s' p2 c e2 (omega arith))
          (λ s'' es' c'.
            Ensures-bind (Begun n3 m s.cwnd s.last_acked) _ (receive_packet n3 s'' p3) _
              (receive-Begun m b s.cwnd s.last_acked room n3 s'' p3 c' e3)
              (λ s3 es3 g. Begun-after n3 m s.cwnd s.last_acked s3 es _ (
                Begun-after n3 m s.cwnd s.last_acked s3 es' _
                  (subst (Begun n3 m s.cwnd s.last_acked s3) (sym (append-nil es3)) g)))))
  where
    start : Counted m b s.cwnd s.last_acked 0 s
    start = record {
      steady = h;
      same_cwnd = refl;
      same_acked = refl;
      recovered = r;
      normal = f;
      count = d;
    }
