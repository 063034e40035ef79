-- ===== src/Queues/Lossless/Laws.antt =====
-- The handlers of the lossless queue, one at a time, and what holds between them.
use frontier_htsim.Prelude.{
  ℕ, suc, ◌+◌, ◌≤◌, ◌≡◌, true, false, List, [], ◌∷◌, arith, if◌then◌else◌, Ensures,
}
use frontier_htsim.Fifo
use frontier_htsim.Network.{Packet}
use frontier_htsim.Queues.Effects.{scheduled, bytes, bytes-append}
use frontier_htsim.Queues.Pause.{paused, ready, pause_received}
use frontier_htsim.Queues.Lossless.{LosslessQueue, receive_packet, complete_service}

-- With `n` events pending: one exactly while a packet is being sent. A packet is being sent whenever
-- the queue is ready and holds one, and while a PAUSE waits for its end; none while it is paused.
-- The senders are paused when more than the high threshold is held, and only while at least the low
-- one is.
pub record Inv (q : LosslessQueue) (n : ℕ) : Type 0 where
  pub counted : q.queue.queuesize ≡ bytes q.queue.enqueued
  pub served : n ≡ (if q.sending then 1 else 0)
  pub busy : q.sending ≡ true → Fifo.empty q.queue.enqueued ≡ false
  pub serving : q.state_send ≡ ready → Fifo.empty q.queue.enqueued ≡ false → q.sending ≡ true
  pub waiting : q.state_send ≡ pause_received → q.sending ≡ true
  pub stopped : q.state_send ≡ paused → q.sending ≡ false
  pub thresholds : q.low_threshold ≤ q.high_threshold
  pub full : q.pausing ≡ false → q.queue.queuesize ≤ q.high_threshold
  pub kept_full : q.pausing ≡ true → q.low_threshold ≤ q.queue.queuesize

pub receive_packet-Inv :
    (q : LosslessQueue) (n : ℕ) (xs : List Packet) (p : Packet)
    → q.queue.enqueued ≡ xs
    → Inv q n
    → Ensures (λ q' es. Inv q' (n + scheduled es)) (receive_packet q p)
unfolding receive_packet
receive_packet-Inv q n [] p e v = ground (arith, bytes-append q.queue.enqueued (p ∷ []))
receive_packet-Inv q n (x ∷ xs) p e v = ground (arith, bytes-append q.queue.enqueued (p ∷ []))

pub complete_service-Inv :
    (q : LosslessQueue) (n : ℕ) (xs : List Packet)
    → q.queue.enqueued ≡ xs
    → Inv q (suc n)
    → Ensures (λ q' es. Inv q' (n + scheduled es)) (complete_service q)
unfolding complete_service
complete_service-Inv q n [] e v = ground arith
complete_service-Inv q n (x ∷ []) e v = ground arith
complete_service-Inv q n (x ∷ y ∷ xs) e v = ground arith
