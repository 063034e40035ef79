-- ===== src/Queues/Ecn.antt =====
-- sim/ecnqueue.h and sim/ecnqueue.cpp: a drop-tail queue that marks packets as it sends them while it
-- holds more than `k` bytes, and that stops and goes on at PAUSE frames.
pub mod Resume
use frontier_htsim.Prelude.{
  ℕ, ◌+◌, ◌-◌, Bool, true, false, ◌&&◌, not, List, [], ◌∷◌, Option, none, some, ltb, ◌==◌,
  if◌then◌else◌, Outcome, done, aborted, ◌>>=◌, ◌>>◌, emit, assert, return, or_abort,
}
use frontier_htsim.Fifo
use frontier_htsim.Network.{Packet, mark_ce}
use frontier_htsim.Queues.Effects.{Effect, sends_on, frees}
use frontier_htsim.Queues.Utilization.{BaseQueue}
use frontier_htsim.Queues.DropTail
use frontier_htsim.Queues.DropTail.{Queue, begin_service}
use frontier_htsim.Queues.Pause.{
  SendState, paused, ready, pause_received, is_ready, settle_pause, is_pause,
}
use frontier_htsim.Queues.Port.{Discipline}

pub record EcnQueue : Type 0 where
  pub queue : Queue
  pub k : ℕ
  pub state_send : SendState

unfoldable pub init : BaseQueue → ℕ → ℕ → EcnQueue
unfolding DropTail.init
init base maxsize k = record { queue = DropTail.init base maxsize; k = k; state_send = ready }

-- The branch of `receivePacket` for a PAUSE frame.
unfoldable pub receive_pause : EcnQueue → Packet → Outcome Effect EcnQueue
unfolding begin_service
receive_pause q p =
    if ltb 0 p.sleep_time
    then (do
      emit (frees p)
      return (record q { state_send = if ltb 0 q.queue.queuesize then pause_received else paused }))
    else (if ltb 0 q.queue.queuesize
        then (do begin_service q.queue; emit (frees p); return (record q { state_send = ready }))
        else (do emit (frees p); return (record q { state_send = ready })))

-- The branches for any other packet.
unfoldable pub receive_data : EcnQueue → Packet → Outcome Effect EcnQueue
unfolding begin_service
receive_data q pkt =
    let held = record (q.queue) {
      enqueued = Fifo.push q.queue.enqueued pkt;
      queuesize = q.queue.queuesize + pkt.size;
    } in
    if ltb q.queue.maxsize (q.queue.queuesize + pkt.size)
    then (do
      emit (frees pkt)
      return (record q { queue = record (q.queue) { num_drops = q.queue.num_drops + 1 } }))
    else (if Fifo.empty q.queue.enqueued && is_ready q.state_send
        then (do
          assert (Fifo.size held.enqueued == 1)
          begin_service held
          return (record q { queue = held }))
        else return (record q { queue = held }))

unfoldable pub receive_packet : EcnQueue → Packet → Outcome Effect EcnQueue
unfolding receive_pause receive_data is_pause
receive_packet q pkt = if is_pause pkt then receive_pause q pkt else receive_data q pkt

unfoldable pub complete_service : EcnQueue → Outcome Effect EcnQueue
unfolding begin_service mark_ce
complete_service q = do
  (pkt, rest) ← or_abort (Fifo.pop q.queue.enqueued)
  let sent = if ltb q.k q.queue.queuesize then mark_ce pkt else pkt
  let held = record (q.queue) { enqueued = rest; queuesize = q.queue.queuesize - pkt.size }
  let q' = record q { queue = held; state_send = settle_pause q.state_send }
  emit (sends_on sent)
  if not (Fifo.empty rest) && is_ready q'.state_send
      then (do begin_service held; return q')
      else return q'

unfoldable pub discipline : Discipline EcnQueue
unfolding receive_packet complete_service
discipline = record {
  receive = λ q now pkt. receive_packet q pkt;
  complete = λ q now. complete_service q;
}
