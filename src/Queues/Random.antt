-- ===== src/Queues/Random.antt =====
-- sim/randomqueue.h and sim/randomqueue.cpp: a drop-tail queue that also drops at random, near its limit.
-- The two tests on `drand()` are arguments: `lost` is `_plr > 0.0 && drand() < _plr`, and `unlucky` is
-- `drand() < 0.1`. Where `drop_prob` is 0, `drand()` is not below it.
pub mod Laws
use frontier_htsim.Prelude.{
  ℕ, ◌+◌, Bool, false, ◌||◌, List, [], ◌∷◌, ltb, ◌==◌, if◌then◌else◌, Outcome, done, ◌>>=◌, ◌>>◌,
  emit, assert, return,
}
use frontier_htsim.Fifo
use frontier_htsim.Network.{Packet}
use frontier_htsim.Queues.Effects.{Effect, frees}
use frontier_htsim.Queues.Utilization.{BaseQueue}
use frontier_htsim.Queues.DropTail
use frontier_htsim.Queues.DropTail.{Queue, begin_service}

pub record RandomQueue : Type 0 where
  pub queue : Queue
  pub drop : ℕ
  pub buffer_drops : ℕ

unfoldable pub init : BaseQueue → ℕ → ℕ → RandomQueue
unfolding DropTail.init
init base maxsize drop = record {
  queue = DropTail.init base maxsize;
  drop = drop;
  buffer_drops = 0;
}

-- `crt > _drop_th`, where `_drop_th` is `_maxsize - _drop` and may be negative.
unfoldable pub over_threshold : RandomQueue → ℕ → Bool
over_threshold q crt = ltb q.queue.maxsize (crt + q.drop)

unfoldable pub enqueue : RandomQueue → Packet → Outcome Effect RandomQueue
unfolding begin_service
enqueue q pkt =
    let held = record (q.queue) {
      enqueued = Fifo.push q.queue.enqueued pkt;
      queuesize = q.queue.queuesize + pkt.size;
    } in
    if Fifo.empty q.queue.enqueued
    then (do
      assert (Fifo.size held.enqueued == 1)
      begin_service held
      return (record q { queue = held }))
    else return (record q { queue = held })

unfoldable pub receive_packet : RandomQueue → Bool → Bool → Packet → Outcome Effect RandomQueue
unfolding enqueue over_threshold
receive_packet q lost unlucky pkt =
    let crt = q.queue.queuesize + pkt.size in
    if lost
    then done q (frees pkt ∷ [])
    else (if ltb q.queue.maxsize crt || (if over_threshold q crt then unlucky else false)
        then done
            (record q {
              buffer_drops = if ltb q.queue.maxsize crt then q.buffer_drops + 1 else q.buffer_drops;
            })
            (frees pkt ∷ [])
        else enqueue q pkt)
