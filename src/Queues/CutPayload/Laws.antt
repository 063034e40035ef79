-- ===== src/Queues/CutPayload/Laws.antt =====
-- The queue that cuts payloads as the queue that it inherits from.
use frontier_htsim.Prelude.{
  ℕ, ◌≡◌, List, [], ◌∷◌, Option, none, some, append-nil, refl, arith, ap, ◌∙◌, after, Outcome, done,
  aborted, ◌>>=◌, return,
}
use frontier_htsim.Fifo
use frontier_htsim.Network.{Packet}
use frontier_htsim.Queues.Effects.{Effect}
use frontier_htsim.Queues.DropTail
use frontier_htsim.Queues.DropTail.{Queue}
use frontier_htsim.Queues.CutPayload.{
  CutPayloadQueue, cut, put_or_drop, receive_packet, count_type, send_head, complete_service,
}

-- What happens to the inherited queue.
abbrev pub inherited : Outcome Effect CutPayloadQueue → Outcome Effect Queue
inherited aborted = aborted
inherited (done q es) = done q.queue es

put_or_drop-inherited :
    (q : CutPayloadQueue) (pkt : Packet) (xs : List Packet)
    → q.queue.enqueued ≡ xs
    → inherited (put_or_drop q pkt) ≡ DropTail.receive_packet q.queue pkt
unfolding put_or_drop DropTail.receive_packet DropTail.begin_service
put_or_drop-inherited q pkt [] e = ground (arith, e)
put_or_drop-inherited q pkt (x ∷ xs) e = ground (arith, e)

queue-cut :
    (q q' : CutPayloadQueue) (pkt pkt' : Packet) → cut q pkt ≡ some (q', pkt') → q'.queue ≡ q.queue
unfolding cut
queue-cut q q' pkt pkt' e = ground (arith, e)

inherited-after : (m : Outcome Effect CutPayloadQueue) → inherited (after [] m) ≡ inherited m
inherited-after (done q es) = refl
inherited-after aborted = refl

inherited-then :
    (q : CutPayloadQueue) (m : Outcome Effect Queue)
    → inherited (m >>= (λ queue. return (record q { queue = queue }))) ≡ m
inherited-then q (done queue es) = ap (done queue) (append-nil es)
inherited-then q aborted = refl

empty_aborts :
    (q : Queue) (now : ℕ) (xs : List Packet)
    → q.enqueued ≡ xs
    → Fifo.next_to_pop xs ≡ none
    → aborted ≡ DropTail.complete_service q now
unfolding DropTail.complete_service
empty_aborts q now [] e n = ground (arith, e)
empty_aborts q now (x ∷ xs) e n = ground (arith, n)

send_head-inherited :
    (q : CutPayloadQueue) (now : ℕ) (o : Option Packet)
    → Fifo.next_to_pop q.queue.enqueued ≡ o
    → inherited (send_head q now o) ≡ DropTail.complete_service q.queue now
unfolding send_head
send_head-inherited q now none e = empty_aborts q.queue now q.queue.enqueued refl e
send_head-inherited q now (some pkt) e =
    inherited-then (count_type q pkt.type) (DropTail.complete_service q.queue now)

receive_packet-inherited :
    (q q' : CutPayloadQueue) (pkt pkt' : Packet)
    → cut q pkt ≡ some (q', pkt')
    → inherited (receive_packet q pkt) ≡ DropTail.receive_packet q.queue pkt'
unfolding receive_packet
receive_packet-inherited q q' pkt pkt' e = rw e (
    inherited-after (put_or_drop q' pkt')
    ∙ put_or_drop-inherited q' pkt' q'.queue.enqueued refl
    ∙ ap (λ k. DropTail.receive_packet k pkt') (queue-cut q q' pkt pkt' e))

-- If a queue that cuts payloads cuts a packet, or leaves it, without a failed assertion, then its
-- arrival does to the inherited queue and to other objects what an arrival of the cut packet does in
-- the drop-tail queue, and an event does what an event does there; each aborts exactly where the
-- other does.
pub handlers-inherited :
    (q q' : CutPayloadQueue) (pkt pkt' : Packet) (now : ℕ)
    → cut q pkt ≡ some (q', pkt')
    → (inherited (receive_packet q pkt) ≡ DropTail.receive_packet q.queue pkt')
      × (inherited (complete_service q now) ≡ DropTail.complete_service q.queue now)
unfolding complete_service
handlers-inherited q q' pkt pkt' now e = (
  receive_packet-inherited q q' pkt pkt' e,
  send_head-inherited q now (Fifo.next_to_pop q.queue.enqueued) refl,
)
