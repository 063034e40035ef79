-- ===== src/Queues/Random/Laws.antt =====
-- An arrival at the random queue, for all draws.
use frontier_htsim.Prelude.{ℕ, ◌+◌, ◌<◌, ◌≡◌, ◌⊎◌, refl, Bool, true, List, [], ◌∷◌, arith, Ensures}
use frontier_htsim.Fifo
use frontier_htsim.Network.{Packet}
use frontier_htsim.Queues.Effects.{scheduled, bytes-append, frees}
use frontier_htsim.Queues.DropTail.Laws.{Inv}
use frontier_htsim.Queues.Random.{RandomQueue, receive_packet, enqueue, over_threshold}

-- What an arrival does to a queue that counts its bytes within its size and is served: the same holds
-- afterwards, and a packet is kept, behind the others, or freed; a loss-free link frees no packet with
-- which the queue stays within the threshold.
arrival :
    (q : RandomQueue) (n : ℕ) (lost unlucky : Bool) (p : Packet) (xs : List Packet)
    → q.queue.enqueued ≡ xs
    → Inv q.queue n
    → Ensures
        (λ q' es.
          Inv q'.queue (n + scheduled es)
          × ((q'.queue.enqueued ≡ Fifo.push q.queue.enqueued p)
              ⊎ ((es ≡ frees p ∷ [])
                  × (q'.queue.enqueued ≡ q.queue.enqueued)
                  × ((lost ≡ true) ⊎ (q.queue.maxsize < q.queue.queuesize + p.size + q.drop)))))
        (receive_packet q lost unlucky p)
unfolding receive_packet enqueue over_threshold
arrival q n lost unlucky p [] e v = ground (arith, bytes-append q.queue.enqueued (p ∷ []))
arrival q n lost unlucky p (x ∷ xs) e v = ground (arith, bytes-append q.queue.enqueued (p ∷ []))

-- Whatever the draws are, an arrival at a queue that counts its bytes, within its size, and has one
-- event pending exactly while it holds packets, leaves it so. The packet is put behind the others,
-- or it is freed and the others stay; and it is only freed if the loss rate struck or the queue
-- would come within `_drop` bytes of its size.
pub receive_packet-chance :
    (q : RandomQueue) (n : ℕ) (lost unlucky : Bool) (p : Packet)
    → Inv q.queue n
    → Ensures
        (λ q' es.
          Inv q'.queue (n + scheduled es)
          × ((q'.queue.enqueued ≡ Fifo.push q.queue.enqueued p)
              ⊎ ((es ≡ frees p ∷ [])
                  × (q'.queue.enqueued ≡ q.queue.enqueued)
                  × ((lost ≡ true) ⊎ (q.queue.maxsize < q.queue.queuesize + p.size + q.drop)))))
        (receive_packet q lost unlucky p)
receive_packet-chance q n lost unlucky p v = arrival q n lost unlucky p q.queue.enqueued refl v
