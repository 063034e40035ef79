-- ===== src/Eqds/Sink/Answers.antt =====
-- The end of a handler, where a packet is counted in and acknowledged.
use frontier_htsim.Prelude.{
  ℕ, ◌+◌, ◌-◌, ◌^◌, ◌≤◌, ◌≡◌, refl, Bool, true, false, not, ◌||◌, ◌&&◌, List, [], ◌∷◌, ◌++◌, leb,
  ◌==◌, arith, Outcome, done, aborted, ◌>>=◌, Ensures, Ensures-bind, Ensures-mono, Ensures-assert,
}
use frontier_htsim.Eqds.Packets.{EqdsDataPacket, EqdsRtsPacket}
use frontier_htsim.Eqds.Pulls.{PullState, Request, handle_pull_target, enter_pull, retransmit, rts}
use frontier_htsim.Eqds.Sink.{
  EqdsSink, SinkEffect, as_asks, with_pulls, send_sack_if, accept, answer, new_data, new_rts,
}
use frontier_htsim.Eqds.Sink.Window.{add}
use frontier_htsim.Eqds.Sink.Acked.{
  AllTruthful, AllTruthful-append, Keeps, Good, Counts, send_sack-Good, bases, accept-Counts,
}

-- A part of a handler that leaves the packets alone, and the rest of the handler.
pub then-Good :
    (P : ℕ → Bool) (C : EqdsSink → Type 0) (m : Outcome SinkEffect EqdsSink)
    (f : EqdsSink → Outcome SinkEffect EqdsSink)
    → Ensures (λ s' es. C s' × AllTruthful P es) m
    → ((s' : EqdsSink) → C s' → Ensures (Good P) (f s'))
    → Ensures (Good P) (m >>= f)
then-Good P C m f a b =
    Ensures-bind (λ s' es. C s' × AllTruthful P es) (Good P) m f a
      (λ s' es k.
        Ensures-mono (Good P) (λ b fs. Good P b (es ++ fs)) (f s')
          (λ s'' fs g. (g.0, AllTruthful-append P es fs k.1 g.1)) (b s' k.0))

-- What a request for pulls leaves alone.
abbrev pub Same : EqdsSink → EqdsSink → Type 0
Same s s' =
    (s'.expected_epsn ≡ s.expected_epsn)
    × (s'.epsn_rx_bitmap ≡ s.epsn_rx_bitmap)
    × (s'.received_bytes ≡ s.received_bytes)
    × (s'.flow_size ≡ s.flow_size)

asks-AllTruthful : (P : ℕ → Bool) (rs : List Request) → AllTruthful P (as_asks rs)
asks-AllTruthful P [] = tt
asks-AllTruthful P (r ∷ rs) = asks-AllTruthful P rs

-- A part that does not abort.
pub Goes : Outcome Request PullState → Type 0
Goes m = Ensures (λ p rs. Unit {0}) m

pub with_pulls-Same :
    (P : ℕ → Bool) (s : EqdsSink) (m : Outcome Request PullState)
    → Goes m
    → Ensures (λ s' es. Same s s' × AllTruthful P es) (with_pulls s m)
unfolding Goes
with_pulls-Same P s (done p rs) a = ((refl, refl, refl, refl), asks-AllTruthful P rs)
with_pulls-Same P s aborted a = absurd a

pub handle_pull_target-Goes : (p : PullState) (pt : ℕ) → Goes (handle_pull_target p pt)
unfolding handle_pull_target Goes enter_pull
handle_pull_target-Goes p pt = ground arith

pub retransmit-Goes : (p : PullState) (n : ℕ) → Goes (retransmit p n)
unfolding retransmit Goes
retransmit-Goes p n = ground arith

pub rts-Goes : (p : PullState) (pt n : ℕ) → Goes (rts p pt n)
unfolding rts Goes enter_pull
rts-Goes p pt n = ground arith

send_sack_if-Good :
    (P : ℕ → Bool) (b : Bool) (s : EqdsSink) (path_id seqno : ℕ) (ce : Bool)
    → Keeps P s
    → seqno + 64 ≤ s.expected_epsn + 2 ^ 12
    → Ensures (Good P) (send_sack_if b s path_id seqno ce)
unfolding send_sack_if
send_sack_if-Good P true s path_id seqno ce h l = send_sack-Good P s path_id seqno ce h l
send_sack_if-Good P false s path_id seqno ce h l = (h, tt)

-- The end of `processData`.
answer-Good :
    (P : ℕ → Bool) (s : EqdsSink) (pkt : EqdsDataPacket) (was_next force : Bool)
    → Keeps P s
    → pkt.epsn + 64 ≤ s.expected_epsn + 2 ^ 12
    → Ensures (Good P) (answer s pkt was_next force)
unfolding answer
answer-Good P s pkt was_next force h l =
    send_sack_if-Good P _ _ pkt.path_id _ pkt.ce h (bases s pkt.epsn (pkt.ce || pkt.ar) l)

-- What is left when a new packet has been counted in.
accept-then :
    (P : ℕ → Bool) (s : EqdsSink) (p : ℕ) (f : EqdsSink → Outcome SinkEffect EqdsSink)
    → Keeps P s
    → P p ≡ false
    → p + 64 ≤ s.expected_epsn + 2 ^ 12
    → ((s' : EqdsSink)
        → Keeps (add p P) s'
        → p + 64 ≤ s'.expected_epsn + 2 ^ 12
        → Ensures (Good (add p P)) (f s'))
    → Ensures (Good (add p P)) (accept s p >>= f)
accept-then P s p f h n l k =
    Ensures-bind (Counts P s p) (Good (add p P)) (accept s p) f
      (accept-Counts P s p h n (omega (arith, l)))
      (λ s' es c. rw c.3 (k s' c.0 (omega (arith, l, c.1))))

pub new_data-Good :
    (P : ℕ → Bool) (s : EqdsSink) (pkt : EqdsDataPacket)
    → Keeps P s
    → P pkt.epsn ≡ false
    → pkt.epsn + 64 ≤ s.expected_epsn + 2 ^ 12
    → s.received_bytes + pkt.size ≤ s.flow_size + 64
    → Ensures (Good (add pkt.epsn P)) (new_data s pkt)
unfolding new_data
new_data-Good P s pkt h n l b =
    Ensures-assert (Good (add pkt.epsn P)) (leb (s.received_bytes + pkt.size - 64) s.flow_size) _
      (ground (arith, b))
      (accept-then P _ pkt.epsn _ h n l (λ s' k m. answer-Good (add pkt.epsn P) s' pkt _ _ k m))

pub new_rts-Good :
    (P : ℕ → Bool) (s : EqdsSink) (pkt : EqdsRtsPacket)
    → Keeps P s
    → P pkt.epsn ≡ false
    → pkt.epsn + 64 ≤ s.expected_epsn + 2 ^ 12
    → Ensures (Good (add pkt.epsn P)) (new_rts s pkt)
unfolding new_rts
new_rts-Good P s pkt h n l = accept-then P _ pkt.epsn _ h n l (λ s' k m.
    send_sack-Good (add pkt.epsn P)
      (record s' {
        ack_request =
            not ((pkt.epsn == s.expected_epsn) && (s'.out_of_order_count == 0 && s'.ack_request))
            && s'.ack_request;
      })
      pkt.path_id _ pkt.ce k (bases s' pkt.epsn (pkt.ce || pkt.ar) m))
