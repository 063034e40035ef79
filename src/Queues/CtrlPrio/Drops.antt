-- ===== src/Queues/CtrlPrio/Drops.antt =====
-- The control-priority queue when it is full: the packets for which it knows no drop.
use frontier_htsim.Prelude.{
  ℕ, ◌+◌, ◌<◌, ◌≡◌, refl, true, false, Bool, Option, none, some, arith, if_true, ltb, Outcome,
  aborted, or_abort, ◌>>=◌,
}
use frontier_htsim.Network.{Packet, PktPriority, prio_lo, prio_mid, prio_hi, prio_none}
use frontier_htsim.Queues.Effects.{Effect}
use frontier_htsim.Queues.CtrlPrio.Laws.{held, full_for}
use frontier_htsim.Queues.CtrlPrio.{
  CtrlPrioQueue, CtrlLane, ctrl_band, reported, evict, store, receive_at, receive_packet,
}

or_abort-aborted :
    (o : Option (CtrlLane × Packet)) (f : CtrlLane × Packet → Outcome Effect (CtrlLane × ℕ))
    → ((r : CtrlLane × Packet) → f r ≡ aborted)
    → (or_abort o >>= f) ≡ aborted
or_abort-aborted none f h = refl
or_abort-aborted (some r) f h = rw (h r) refl

store-aborted :
    (m : ℕ) (l : CtrlLane) (coin : Bool) (p : Packet)
    → m < l.size + p.size
    → reported p.type ≡ false
    → store m l coin p ≡ aborted
unfolding store
store-aborted m l coin p o r =
    if_true (λ x. x ≡ aborted) (ltb m (l.size + p.size)) _ _ (ground arith)
      (or_abort-aborted (evict l coin p) _ (λ x. rw r refl))

receive_at-aborted :
    (q : CtrlPrioQueue) (prio : PktPriority) (coin : Bool) (p : Packet)
    → q.maxsize < held q prio + p.size
    → reported p.type ≡ false
    → receive_at (ctrl_band prio) q coin p ≡ aborted
unfolding receive_at ctrl_band held
receive_at-aborted q prio_lo coin p o r = rw (store-aborted q.maxsize q.low coin p o r) refl
receive_at-aborted q prio_mid coin p o r = refl
receive_at-aborted q prio_hi coin p o r = rw (store-aborted q.maxsize q.high coin p o r) refl
receive_at-aborted q prio_none coin p o r = refl

-- A packet that finds its queue full, and whose type has no report, aborts the queue, whichever packet
-- is to be dropped.
pub receive_packet-aborted :
    (q : CtrlPrioQueue) (coin : Bool) (p : Packet)
    → full_for q p.priority p ≡ true
    → reported p.type ≡ false
    → receive_packet q coin p ≡ aborted
unfolding receive_packet
receive_packet-aborted q coin p o r = receive_at-aborted q p.priority coin p (ground (arith, o)) r
