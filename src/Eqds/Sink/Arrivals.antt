-- ===== src/Eqds/Sink/Arrivals.antt =====
-- A sink and the packets that arrive at it: what it has acknowledged is what has arrived.
use frontier_htsim.Prelude.{
  ℕ, ◌+◌, ◌%◌, ◌^◌, ◌≤◌, ◌≡◌, sym, subst, ◌∙◌, max, Bool, true, false, [], ◌∷◌, if◌then◌else◌,
  if_cases, if_elim, arith, Outcome, ◌>>◌, emit, return, Ensures, Ensures-bind, Ensures-after,
  Ensures-mono, Ensures-assert,
}
use frontier_htsim.Eqds.Packets.{EqdsDataPacket, EqdsRtsPacket}
use frontier_htsim.Eqds.Pulls.{handle_pull_target, retransmit, rts}
use frontier_htsim.Eqds.Sink.{
  EqdsSink, SinkEffect, sends_nack, frees, is_duplicate, process_data, ask_again, process_trimmed,
  process_rts, SinkArrival, of_data, of_rts, of_other_type, process, receive_packet, size_of,
}
use frontier_htsim.Eqds.Sink.Window.{Holds, add, again-Holds}
use frontier_htsim.Eqds.Sink.Acked.{
  AllTruthful, AllTruthful-append, Keeps, Good, is_duplicate_lem, sack-Truthful, send_sack-Good,
  bases,
}
use frontier_htsim.Eqds.Sink.Answers.{
  then-Good, Same, with_pulls-Same, handle_pull_target-Goes, retransmit-Goes, rts-Goes,
  new_data-Good, new_rts-Good,
}

Same-Keeps : (P : ℕ → Bool) (s s' : EqdsSink) → Same s s' → Keeps P s → Keeps P s'
Same-Keeps P s s' e h =
    subst (λ i. Holds P i s'.epsn_rx_bitmap) (sym e.0)
      (subst (λ b. Holds P s.expected_epsn b) (sym e.1) h)

-- The packet is again one that the sink has, or a new one.
known_or_new :
    (P : ℕ → Bool) (s : EqdsSink) (p : ℕ) (x y : Outcome SinkEffect EqdsSink)
    → Keeps P s
    → p + 64 ≤ s.expected_epsn + 2 ^ 12
    → (Keeps (add p P) s → Ensures (Good (add p P)) x)
    → (P p ≡ false → Ensures (Good (add p P)) y)
    → Ensures (Good (add p P)) (if is_duplicate s p then x else y)
known_or_new P s p x y h l f g =
    let d : is_duplicate s p ≡ P p = is_duplicate_lem P s p h (omega (arith, l)) in
    if_cases (Ensures (Good (add p P))) (is_duplicate s p)
      (λ b. f (again-Holds P s.epsn_rx_bitmap s.expected_epsn p h (sym d ∙ b))) (λ b. g (sym d ∙ b))

process_data-Good :
    (P : ℕ → Bool) (s : EqdsSink) (pkt : EqdsDataPacket)
    → Keeps P s
    → pkt.epsn + 64 ≤ s.expected_epsn + 2 ^ 12
    → (P pkt.epsn ≡ false → s.received_bytes + pkt.size ≤ s.flow_size + 64)
    → Ensures (Good (add pkt.epsn P)) (process_data s pkt)
unfolding process_data
process_data-Good P s pkt h l b =
    then-Good (add pkt.epsn P) (Same s) _ _
      (with_pulls-Same (add pkt.epsn P)
        (record s { accepted_bytes = (s.accepted_bytes + pkt.size) % 2 ^ 16 })
        (handle_pull_target s.pulls pkt.pull_target)
        (handle_pull_target-Goes s.pulls pkt.pull_target))
      (λ s' e.
        known_or_new P (record s' { high_epsn = max s'.high_epsn pkt.epsn }) pkt.epsn _ _
          (Same-Keeps P s s' e h) (omega (arith, l, e.0))
          (λ k.
            send_sack-Good (add pkt.epsn P)
              (record s' { high_epsn = max s'.high_epsn pkt.epsn; duplicates = s'.duplicates + 1 })
              pkt.path_id _ pkt.ce k (bases s' pkt.epsn pkt.ce (omega (arith, l, e.0))))
          (λ n.
            new_data-Good P (record s' { high_epsn = max s'.high_epsn pkt.epsn }) pkt
              (Same-Keeps P s s' e h) n (omega (arith, l, e.0)) (omega (arith, b n, e.2, e.3))))

process_rts-Good :
    (P : ℕ → Bool) (s : EqdsSink) (pkt : EqdsRtsPacket)
    → Keeps P s
    → pkt.epsn + 64 ≤ s.expected_epsn + 2 ^ 12
    → pkt.ar ≡ true
    → Ensures (Good (add pkt.epsn P)) (process_rts s pkt)
unfolding process_rts
process_rts-Good P s pkt h l a = Ensures-assert (Good (add pkt.epsn P)) pkt.ar _ a (
    then-Good (add pkt.epsn P) (Same s) _ _
      (with_pulls-Same (add pkt.epsn P) s (rts s.pulls pkt.pull_target pkt.retx_backlog)
        (rts-Goes s.pulls pkt.pull_target pkt.retx_backlog))
      (λ s' e.
        known_or_new P s' pkt.epsn _ _ (Same-Keeps P s s' e h) (omega (arith, l, e.0))
          (λ k.
            send_sack-Good (add pkt.epsn P) (record s' { duplicates = s'.duplicates + 1 })
              pkt.path_id pkt.epsn pkt.ce k (omega (arith, l, e.0)))
          (λ n. new_rts-Good P s' pkt (Same-Keeps P s s' e h) n (omega (arith, l, e.0)))))

ask_again-Good :
    (P : ℕ → Bool) (s : EqdsSink) (pkt : EqdsDataPacket)
    → Keeps P s
    → Ensures (Good P) (ask_again s pkt)
unfolding ask_again
ask_again-Good P s pkt h =
    then-Good P (Same s) _ _
      (with_pulls-Same P s (handle_pull_target s.pulls pkt.pull_target)
        (handle_pull_target-Goes s.pulls pkt.pull_target))
      (λ s' e.
        Ensures-after (Good P) (sends_nack (record { ref_epsn = pkt.epsn; ev = pkt.path_id }) ∷ [])
          _
          (Ensures-mono (λ s'' es. Same s' s'' × AllTruthful P es) (Good P) _
            (λ s'' es k. (Same-Keeps P s' s'' k.0 (Same-Keeps P s s' e h), k.1))
            (with_pulls-Same P s' (retransmit s'.pulls _) (retransmit-Goes s'.pulls _))))

process_trimmed-Good :
    (P : ℕ → Bool) (s : EqdsSink) (pkt : EqdsDataPacket)
    → Keeps P s
    → pkt.epsn + 64 ≤ s.expected_epsn + 2 ^ 12
    → Ensures (Good P) (process_trimmed s pkt)
unfolding process_trimmed
process_trimmed-Good P s pkt h l =
    if_elim (Ensures (Good P))
      (is_duplicate (record s { num_trimmed = s.num_trimmed + 1 }) pkt.epsn)
      (let (k, t) =
          sack-Truthful P (record s { num_trimmed = s.num_trimmed + 1 }) pkt.path_id pkt.epsn false
            h l in
        (k, (t, tt)))
      (ask_again-Good P (record s { num_trimmed = s.num_trimmed + 1 }) pkt h)

-- What has arrived after an arrival; a trimmed packet brings nothing.
abbrev pub arrived : (ℕ → Bool) → SinkArrival → ℕ → Bool
arrived P (of_data pkt) = if pkt.is_header then P else add pkt.epsn P
arrived P (of_rts pkt) = add pkt.epsn P
arrived P (of_other_type size) = P

-- What a sender with a window of 4032 packets and with the flow's size sends.
abbrev pub Fits : (ℕ → Bool) → EqdsSink → SinkArrival → Type 0
Fits P s (of_data pkt) =
    (pkt.epsn + 64 ≤ s.expected_epsn + 2 ^ 12)
    × (P pkt.epsn ≡ false → s.received_bytes + pkt.size ≤ s.flow_size + 64)
Fits P s (of_rts pkt) = (pkt.epsn + 64 ≤ s.expected_epsn + 2 ^ 12) × (pkt.ar ≡ true)
Fits P s (of_other_type size) = ⊥

process-Good :
    (P : ℕ → Bool) (s : EqdsSink) (a : SinkArrival)
    → Keeps P s
    → Fits P s a
    → Ensures (Good (arrived P a)) (process s a)
unfolding process
process-Good P s (of_rts pkt) h f = process_rts-Good P s pkt h f.0 f.1
process-Good P s (of_other_type size) h f = absurd f
process-Good P s (of_data pkt) h f = data_or_header pkt.is_header
  where
    data_or_header :
        (b : Bool)
        → Ensures
            (Good (if b then P else add pkt.epsn P))
            (if b then process_trimmed s pkt else process_data s pkt)
    data_or_header true = process_trimmed-Good P s pkt h f.0
    data_or_header false = process_data-Good P s pkt h f.0 f.1

-- A sink keeps the set `P`: all below the number that it expects, not that one, and beyond it,
-- within 2 ^ 12, those whose element is set. A packet arrives whose number is at least 64 short of
-- the end of that range: data that fits the flow if it is new, data that was trimmed and fits it
-- too, or an RTS that asks for an acknowledgement. No assertion fails; the sink keeps `P` with the
-- packet, or `P` if it was trimmed; and every acknowledgement that it sends has as its cumulative
-- number the first that is not kept then, and in its bitmap only numbers that are.
pub receive_packet-Good :
    (P : ℕ → Bool) (s : EqdsSink) (a : SinkArrival)
    → Keeps P s
    → Fits P s a
    → Ensures (Good (arrived P a)) (receive_packet s a)
unfolding receive_packet
receive_packet-Good P s a h f =
    Ensures-bind (Good (arrived P a)) (Good (arrived P a))
      (process
        (record s { received = s.received + 1; bytes_received = s.bytes_received + size_of a }) a)
      (λ s'. emit frees >> return s') (counted a f)
      (λ s' es g. (g.0, AllTruthful-append (arrived P a) es (frees ∷ []) g.1 tt))
  where
    fit :
        (b : SinkArrival)
        → Fits P s b
        → Fits P
            (record s { received = s.received + 1; bytes_received = s.bytes_received + size_of a })
            b
    fit (of_data pkt) g = g
    fit (of_rts pkt) g = g
    fit (of_other_type size) g = absurd g

    counted :
        (b : SinkArrival)
        → Fits P s b
        → Ensures (Good (arrived P b)) (
            process
              (record s {
                received = s.received + 1;
                bytes_received = s.bytes_received + size_of a;
              })
              b)
    counted b g =
        process-Good P
          (record s { received = s.received + 1; bytes_received = s.bytes_received + size_of a }) b
          h (fit b g)
