-- ===== src/Queues/LosslessOutput.antt =====
-- sim/queue_lossless_output.h and sim/queue_lossless_output.cpp: the egress side of a lossless port. It
-- tells the ingress queue of each packet when the packet has left, marks packets, and writes telemetry
-- into HPCC packets.
pub mod Laws
pub mod Runs
use frontier_htsim.Prelude.{
  ℕ, suc, ◌+◌, ◌-◌, ◌%◌, ◌^◌, Bool, true, false, ◌&&◌, not, List, [], ◌∷◌, ◌++◌, Option, none, some,
  length, ltb, ◌==◌, if◌then◌else◌, add64, Outcome, done, aborted, ◌>>=◌, ◌>>◌, emit, assert,
  return, or_abort,
}
use frontier_htsim.Fifo
use frontier_htsim.Network.{Packet, mark_ce, has_type, hpcc, IntEntry}
use frontier_htsim.Queues.Effects.{Effect, sends_on, frees, completes}
use frontier_htsim.Queues.Utilization.{BaseQueue, drain_time, log_packet_send}
use frontier_htsim.Queues.DropTail
use frontier_htsim.Queues.DropTail.{Queue}
use frontier_htsim.Queues.Pause.{
  SendState, paused, ready, pause_received, is_ready, settle_pause, is_pause,
}

-- `_sending` is 0 or 1. The oldest entry of `vq` is the back of the list. `switch` is the identifier
-- and the type of the switch, if there is one; `bitrate` is the link's.
pub record LosslessOutputQueue : Type 0 where
  pub queue : Queue
  pub vq : List ℕ
  pub state_send : SendState
  pub sending : Bool
  pub txbytes : ℕ
  pub ecn_enabled : Bool
  pub k : ℕ
  pub bitrate : ℕ
  pub switch : Option (ℕ × ℕ)

unfoldable pub init : BaseQueue → ℕ → ℕ → Bool → ℕ → LosslessOutputQueue
unfolding DropTail.init
init base bitrate maxsize ecn k = record {
  queue = DropTail.init base maxsize;
  vq = [];
  state_send = ready;
  sending = false;
  txbytes = 0;
  ecn_enabled = ecn;
  k = k;
  bitrate = bitrate;
  switch = none;
}

unfoldable pub begin_service : LosslessOutputQueue → Outcome Effect LosslessOutputQueue
unfolding DropTail.begin_service
begin_service q = do
  assert (is_ready q.state_send && not q.sending)
  DropTail.begin_service q.queue
  return (record q { sending = true })

unfoldable pub receive_pause : LosslessOutputQueue → Packet → Outcome Effect LosslessOutputQueue
unfolding begin_service
receive_pause q p =
    if ltb 0 p.sleep_time
    then (do
      emit (frees p)
      return (record q { state_send = if q.sending then pause_received else paused }))
    else (if not (Fifo.empty q.queue.enqueued) && not q.sending
        then (do q' ← begin_service (record q { state_send = ready }); emit (frees p); return q')
        else (do emit (frees p); return (record q { state_send = ready })))

-- The rest of `receivePacket(pkt, prev)`, for a packet that is no PAUSE frame.
unfoldable pub receive_data :
    LosslessOutputQueue → Packet → Option ℕ → Outcome Effect LosslessOutputQueue
unfolding begin_service
receive_data q pkt prev = do
  v ← or_abort prev
  let held = record (q.queue) {
    enqueued = Fifo.push q.queue.enqueued pkt;
    queuesize = q.queue.queuesize + pkt.size;
  }
  let q' = record q { queue = held; vq = Fifo.push q.vq v }
  if Fifo.empty q.queue.enqueued && is_ready q.state_send
      then (do assert (Fifo.size held.enqueued == 1); begin_service q')
      else return q'

unfoldable pub receive_packet_from :
    LosslessOutputQueue → Packet → Option ℕ → Outcome Effect LosslessOutputQueue
unfolding receive_pause receive_data is_pause
receive_packet_from q pkt prev =
    if is_pause pkt then receive_pause q pkt else receive_data q pkt prev

-- A packet that the switch hands over carries its ingress queue.
unfoldable pub receive_packet : LosslessOutputQueue → Packet → Outcome Effect LosslessOutputQueue
unfolding receive_packet_from is_pause
receive_packet q pkt = if is_pause pkt then receive_packet_from q pkt none else (do
  v ← or_abort pkt.ingressqueue
  receive_packet_from q (record pkt { ingressqueue = none }) (some v))

-- What an HPCC packet is given: the queue's size before the packet leaves, and the bytes sent so far.
-- Without a switch two fields of the entry stay as the entry's constructor set them.
unfoldable pub int_entry : LosslessOutputQueue → ℕ → IntEntry
int_entry q now = record {
  queuesize = q.queue.queuesize % 2 ^ 32;
  ts = now;
  switch_id = elim q.switch [ none ↦ 2 ^ 32 - 1 | some (i, t) ↦ i ];
  switch_type = elim q.switch [ none ↦ 2 ^ 32 - 1 | some (i, t) ↦ t ];
  txbytes = q.txbytes;
  linkrate = q.bitrate;
}

unfoldable pub add_int_info : LosslessOutputQueue → ℕ → Packet → Outcome Effect Packet
add_int_info q now pkt =
    if has_type pkt.type hpcc
    then (do
      assert (ltb (length pkt.int_info) 5)
      return (record pkt { int_info = Fifo.push pkt.int_info (int_entry q now) }))
    else return pkt

unfoldable pub mark : LosslessOutputQueue → Packet → Packet
mark q pkt = if q.ecn_enabled && ltb q.k q.queue.queuesize then mark_ce pkt else pkt

unfoldable pub complete_service : LosslessOutputQueue → ℕ → Outcome Effect LosslessOutputQueue
unfolding begin_service
complete_service q now = do
  (pkt, rest) ← or_abort (Fifo.pop q.queue.enqueued)
  (v, vs) ← or_abort (Fifo.pop q.vq)
  sent ← add_int_info q now (mark q pkt)
  emit (completes v sent)
  base ← or_abort (log_packet_send q.queue.base now (drain_time q.queue.base sent))
  emit (sends_on sent)
  let held = record (q.queue) {
    base = base;
    enqueued = rest;
    queuesize = q.queue.queuesize - pkt.size;
  }
  let q' = record q {
    queue = held;
    vq = vs;
    txbytes = add64 q.txbytes pkt.size;
    sending = false;
    state_send = settle_pause q.state_send;
  }
  if not (Fifo.empty rest) && is_ready q'.state_send then begin_service q' else return q'
