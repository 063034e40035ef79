-- ===== src/Queues/Lossless.antt =====
-- sim/queue_lossless.h and sim/queue_lossless.cpp: a queue that drops nothing. It tells the switch to
-- pause the senders when it holds more than `high_threshold` bytes and to let them go on when it holds
-- less than `low_threshold`, and it obeys the PAUSE frames that it gets.
pub mod Laws
pub mod Runs
use frontier_htsim.Prelude.{
  ℕ, ◌+◌, ◌-◌, ◌*◌, Bool, true, false, ◌&&◌, not, List, [], ◌∷◌, Option, none, some, ltb, ◌==◌,
  if◌then◌else◌, Outcome, done, aborted, ◌>>=◌, ◌>>◌, emit, assert, return, or_abort,
}
use frontier_htsim.Fifo
use frontier_htsim.Network.{Packet}
use frontier_htsim.Queues.Effects.{Effect, sends_on, frees, signals}
use frontier_htsim.Queues.Utilization.{BaseQueue}
use frontier_htsim.Queues.DropTail
use frontier_htsim.Queues.DropTail.{Queue}
use frontier_htsim.Queues.Pause.{
  SendState, paused, ready, pause_received, is_ready, is_paused, settle_pause, is_pause,
}
use frontier_htsim.Queues.Port.{Discipline}

-- `_state_recv` is only ever PAUSED or READY: `pausing` says which. `_sending` is 0 or 1.
pub record LosslessQueue : Type 0 where
  pub queue : Queue
  pub state_send : SendState
  pub pausing : Bool
  pub sending : Bool
  pub low_threshold : ℕ
  pub high_threshold : ℕ

unfoldable pub init : BaseQueue → ℕ → LosslessQueue
unfolding DropTail.init
init base maxsize = record {
  queue = DropTail.init base maxsize;
  state_send = ready;
  pausing = false;
  sending = false;
  low_threshold = 0;
  high_threshold = maxsize;
}

-- For a switch with `ports` ports and data packets of `packet_size` bytes.
unfoldable pub init_thresholds : LosslessQueue → ℕ → ℕ → Option LosslessQueue
init_thresholds q ports packet_size =
    let high = q.queue.maxsize - ports * packet_size * 5 in
    let low = 2 * packet_size in
    if ltb 0 high && ltb low high
    then some (record q { high_threshold = high; low_threshold = low })
    else none

unfoldable pub begin_service : LosslessQueue → Outcome Effect LosslessQueue
unfolding DropTail.begin_service
begin_service q = do
  assert (is_ready q.state_send && not q.sending)
  DropTail.begin_service q.queue
  return (record q { sending = true })

-- The branch of `receivePacket` for a PAUSE frame.
unfoldable pub receive_pause : LosslessQueue → Packet → Outcome Effect LosslessQueue
unfolding begin_service
receive_pause q p =
    if ltb 0 p.sleep_time
    then (do
      emit (frees p)
      return (record q { state_send = if q.sending then pause_received else paused }))
    else (if not (Fifo.empty q.queue.enqueued) && not q.sending
        then (do q' ← begin_service (record q { state_send = ready }); emit (frees p); return q')
        else (do emit (frees p); return (record q { state_send = ready })))

-- `if (_queuesize > _high_threshold && _state_recv!=PAUSED) { … }`
unfoldable pub pause_senders : LosslessQueue → Outcome Effect LosslessQueue
pause_senders q =
    if ltb q.high_threshold q.queue.queuesize && not q.pausing
    then (do emit (signals 1000); return (record q { pausing = true }))
    else return q

-- `if (_queuesize < _low_threshold && _state_recv == PAUSED) { … }`
unfoldable pub resume_senders : LosslessQueue → Outcome Effect LosslessQueue
resume_senders q =
    if ltb q.queue.queuesize q.low_threshold && q.pausing
    then (do emit (signals 0); return (record q { pausing = false }))
    else return q

unfoldable pub receive_data : LosslessQueue → Packet → Outcome Effect LosslessQueue
unfolding begin_service pause_senders
receive_data q pkt = do
  let held = record (q.queue) {
    enqueued = Fifo.push q.queue.enqueued pkt;
    queuesize = q.queue.queuesize + pkt.size;
  }
  q' ← pause_senders (record q { queue = held })
  if Fifo.empty q.queue.enqueued && is_ready q.state_send
      then (do assert (Fifo.size held.enqueued == 1); begin_service q')
      else return q'

unfoldable pub receive_packet : LosslessQueue → Packet → Outcome Effect LosslessQueue
unfolding receive_pause receive_data is_pause
receive_packet q pkt = if is_pause pkt then receive_pause q pkt else receive_data q pkt

unfoldable pub complete_service : LosslessQueue → Outcome Effect LosslessQueue
unfolding begin_service resume_senders
complete_service q = do
  (pkt, rest) ← or_abort (Fifo.pop q.queue.enqueued)
  let held = record (q.queue) { enqueued = rest; queuesize = q.queue.queuesize - pkt.size }
  emit (sends_on pkt)
  q' ←
      resume_senders
        (record q { queue = held; sending = false; state_send = settle_pause q.state_send })
  if not (Fifo.empty rest) && is_ready q'.state_send then begin_service q' else return q'

unfoldable pub discipline : Discipline LosslessQueue
unfolding receive_packet complete_service
discipline = record {
  receive = λ q now pkt. receive_packet q pkt;
  complete = λ q now. complete_service q;
}
