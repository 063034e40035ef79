-- ===== src/Tcp/Sink/Arrivals.antt =====
-- A sink that receives segments of one size: what it acknowledges after any arrivals, in any order
-- and however often.
use frontier_htsim.Prelude.{
  ℕ, suc, ◌+◌, ◌*◌, ◌^◌, ◌≤◌, ◌<◌, ◌≡◌, refl, subst, ap, ap₂, ◌∙◌, sym, Bool, true, false, List, [],
  ◌∷◌, map, arith, ltb, ◌==◌, add64, sub64, Bool-cases, inl, inr,
}
use frontier_htsim.Tcp.Sink.{TcpSink, Segment, store, drain, arrive, receive_packet, send_ack}
use frontier_htsim.Tcp.Sink.Holes.{has, place, advance, has-below}
use frontier_htsim.Tcp.Sink.Held.{Held, Held-next, Held-old, Held-beyond}
use frontier_htsim.Tcp.Sink.Prefix.{
  seq, drain-seq, store-seq, next_==, add64_one, last_byte, ltb-seq,
}

-- One arrival: the number of the segment, its time and its mark.
abbrev pub segment : ℕ → ℕ → ℕ × ℕ × Bool → Segment
segment b m (k, ts, marked) = record { seqno = seq b m k; size = m; ts = ts; marked = marked }

-- The state after some arrivals, the latest first.
abbrev pub run : ℕ → ℕ → TcpSink → List (ℕ × ℕ × Bool) → TcpSink
run b m s [] = s
run b m s (a ∷ earlier) = (receive_packet (run b m s earlier) (segment b m a)).0

abbrev pub numbers : List (ℕ × ℕ × Bool) → List ℕ
numbers [] = []
numbers (a ∷ earlier) = a.0 ∷ numbers earlier

abbrev pub Below : ℕ → List ℕ → Type 0
Below last [] = Unit {0}
Below last (k ∷ ks) = (k < last) × Below last ks

arrive_next :
    (s : TcpSink) (seqno size cum : ℕ) (rest : List ℕ)
    → (seqno == add64 s.cumulative_ack 1) ≡ true
    → drain size (sub64 (add64 seqno size) 1) s.received ≡ (cum, rest)
    → arrive s seqno size ≡ record s { cumulative_ack = cum; received = rest }
unfolding arrive
arrive_next s seqno size cum rest e d = simp (e, d)

arrive_old :
    (s : TcpSink) (seqno size : ℕ)
    → (seqno == add64 s.cumulative_ack 1) ≡ false
    → ltb seqno (add64 s.cumulative_ack 1) ≡ true
    → arrive s seqno size ≡ s
unfolding arrive
arrive_old s seqno size e f = simp (e, f)

arrive_beyond :
    (s : TcpSink) (seqno size : ℕ)
    → (seqno == add64 s.cumulative_ack 1) ≡ false
    → ltb seqno (add64 s.cumulative_ack 1) ≡ false
    → ((arrive s seqno size).cumulative_ack ≡ s.cumulative_ack)
      × ((arrive s seqno size).received ≡ store seqno s.received)
unfolding arrive
arrive_beyond s seqno size e f = simp (e, f) (refl, refl)

-- The state of a sink that has received the segments of `ks` and no others.
record Received (b m last : ℕ) (ks : List ℕ) (s : TcpSink) : Type 0 where
  next : ℕ
  held : List ℕ
  cumulative : s.cumulative_ack ≡ b + next * m
  beyond : s.received ≡ map (seq b m) held
  holds : Held last ks next held

module _ (b m last : ℕ) (pos : 0 < m) (room : b + last * m + 1 < 2 ^ 64) where
  test_next :
      (s : TcpSink) (n k : ℕ)
      → s.cumulative_ack ≡ b + n * m
      → n ≤ last
      → (seq b m k == add64 s.cumulative_ack 1) ≡ (k == n)
  test_next s n k c l = ap (λ a. seq b m k == add64 a 1) c ∙ next_== b m pos last room n k l

  test_old :
      (s : TcpSink) (n k : ℕ)
      → s.cumulative_ack ≡ b + n * m
      → n ≤ last
      → ltb (seq b m k) (add64 s.cumulative_ack 1) ≡ ltb k n
  test_old s n k c l =
      ap (ltb (seq b m k)) (ap (λ a. add64 a 1) c ∙ add64_one b m pos last room n l)
      ∙ ltb-seq b m k n pos

  next-Received :
      (s : TcpSink) (ks : List ℕ) (k : ℕ)
      → (r : Received b m last ks s) → k < last
      → (k == r.next) ≡ true
      → Received b m last (k ∷ ks) (arrive s (seq b m k) m)
  next-Received s ks k r l e = subst (Received b m last (k ∷ ks)) (sym after) record {
    next = (advance (suc r.next) r.held).0;
    held = (advance (suc r.next) r.held).1;
    cumulative = refl;
    beyond = refl;
    holds =
        subst
          (λ i. Held last (i ∷ ks) (advance (suc r.next) r.held).0 (advance (suc r.next) r.held).1)
          (sym same) (Held-next last ks r.next r.held r.holds (omega (arith, same)));
  }
    where
      same : k ≡ r.next
      same = ground arith

      word : sub64 (add64 (seq b m k) m) 1 ≡ b + suc r.next * m
      word = last_byte b m pos last room k l ∙ ap (λ i. b + suc i * m) same

      drained :
          drain m (sub64 (add64 (seq b m k) m) 1) s.received
          ≡ (b + (advance (suc r.next) r.held).0 * m, map (seq b m) (advance (suc r.next) r.held).1)
      drained =
          ap₂ (drain m) word r.beyond
          ∙ drain-seq b m pos last room (suc r.next) r.held (omega (arith, same)) r.holds.held_most

      after : arrive s (seq b m k) m ≡ record s {
        cumulative_ack = b + (advance (suc r.next) r.held).0 * m;
        received = map (seq b m) (advance (suc r.next) r.held).1;
      }
      after =
          arrive_next s (seq b m k) m _ _ (test_next s r.next k r.cumulative r.holds.next_most ∙ e)
            drained

  old-Received :
      (s : TcpSink) (ks : List ℕ) (k : ℕ)
      → (r : Received b m last ks s) → (k == r.next) ≡ false
      → ltb k r.next ≡ true
      → Received b m last (k ∷ ks) (arrive s (seq b m k) m)
  old-Received s ks k r e f = subst (Received b m last (k ∷ ks)) (sym same) record {
    next = r.next;
    held = r.held;
    cumulative = r.cumulative;
    beyond = r.beyond;
    holds = Held-old last ks k r.next r.held r.holds (ground arith);
  }
    where
      same : arrive s (seq b m k) m ≡ s
      same =
          arrive_old s (seq b m k) m (test_next s r.next k r.cumulative r.holds.next_most ∙ e)
            (test_old s r.next k r.cumulative r.holds.next_most ∙ f)

  beyond-Received :
      (s : TcpSink) (ks : List ℕ) (k : ℕ)
      → (r : Received b m last ks s) → k < last
      → (k == r.next) ≡ false
      → ltb k r.next ≡ false
      → Received b m last (k ∷ ks) (arrive s (seq b m k) m)
  beyond-Received s ks k r l e f = record {
    next = r.next;
    held = place k r.held;
    cumulative = fields.0 ∙ r.cumulative;
    beyond =
        fields.1
        ∙ ap (store (seq b m k)) r.beyond
        ∙ store-seq b m pos (suc r.next) k r.held r.holds.ascending;
    holds = Held-beyond last ks k r.next r.held r.holds l (ground arith);
  }
    where
      fields :
          ((arrive s (seq b m k) m).cumulative_ack ≡ s.cumulative_ack)
          × ((arrive s (seq b m k) m).received ≡ store (seq b m k) s.received)
      fields =
          arrive_beyond s (seq b m k) m (test_next s r.next k r.cumulative r.holds.next_most ∙ e)
            (test_old s r.next k r.cumulative r.holds.next_most ∙ f)

  arrive-Received :
      (s : TcpSink) (ks : List ℕ) (k : ℕ)
      → k < last
      → Received b m last ks s
      → Received b m last (k ∷ ks) (arrive s (seq b m k) m)
  arrive-Received s ks k l r = elim (Bool-cases (k == r.next)) [
    | inl e ↦ next-Received s ks k r l e
    | inr e ↦ elim (Bool-cases (ltb k r.next)) [
      | inl f ↦ old-Received s ks k r e f
      | inr f ↦ beyond-Received s ks k r l e f
    ]
  ]

  -- The count of bytes is of no matter to what has arrived.
  packets-Received :
      (s : TcpSink) (ks : List ℕ) (n : ℕ)
      → Received b m last ks s
      → Received b m last ks (record s { packets = n })
  packets-Received s ks n r = record {
    next = r.next;
    held = r.held;
    cumulative = r.cumulative;
    beyond = r.beyond;
    holds = r.holds;
  }

  run-Received :
      (arrivals : List (ℕ × ℕ × Bool)) (s : TcpSink)
      → Below last (numbers arrivals)
      → s.cumulative_ack ≡ b
      → s.received ≡ []
      → Received b m last (numbers arrivals) (run b m s arrivals)
  unfolding receive_packet
  run-Received [] s l c e = record {
    next = 0;
    held = [];
    cumulative = c ∙ omega arith;
    beyond = e;
    holds = record {
      ascending = tt;
      next_most = omega arith;
      held_most = λ j h. ground (arith, h);
      same = λ j. ground arith;
    };
  }
  run-Received (a ∷ earlier) s l c e =
      arrive-Received _ (numbers earlier) a.0 l.0
        (packets-Received _ (numbers earlier) _ (run-Received earlier s l.1 c e))

  -- A sink has acknowledged byte `b` and holds nothing beyond it. Segments of one size `m`, not 0,
  -- arrive whose numbers are below `last`, in any order and any of them repeatedly, with `b + last *
  -- m` below 2 ^ 64 - 1. The acknowledgement that the sink sends for the latest of them is `b + n *
  -- m`, where segment `n` has not arrived and all before it have.
  pub acknowledges :
      (a : ℕ × ℕ × Bool) (earlier : List (ℕ × ℕ × Bool)) (s : TcpSink)
      → Below last (numbers (a ∷ earlier))
      → s.cumulative_ack ≡ b
      → s.received ≡ []
      → (n : ℕ) × ((receive_packet (run b m s earlier) (segment b m a)).1.ackno ≡ b + n * m)
        × (has n (numbers (a ∷ earlier)) ≡ false)
        × ((j : ℕ) → j < n → has j (numbers (a ∷ earlier)) ≡ true)
  unfolding receive_packet send_ack
  acknowledges a earlier s l c e = (r.next, r.cumulative, missing, here)
    where
      r : Received b m last (numbers (a ∷ earlier)) (run b m s (a ∷ earlier))
      r = run-Received (a ∷ earlier) s l c e

      missing : has r.next (numbers (a ∷ earlier)) ≡ false
      missing =
          sym (r.holds.same r.next)
          ∙ ground (arith, has-below r.next (suc r.next) r.held (omega arith) r.holds.ascending)

      here : (j : ℕ) → j < r.next → has j (numbers (a ∷ earlier)) ≡ true
      here j h = sym (r.holds.same j) ∙ ground arith
