-- ===== src/Queues/DropTail.antt =====
-- `Queue` of sim/queue.h and sim/queue.cpp: a first-in first-out queue of bounded size. Sizes are
-- plain numbers: under the invariant of `Queues.DropTail.Laws` no `_queuesize -= pkt->size()` falls
-- below 0.
pub mod Laws
use frontier_htsim.Prelude.{
  ℕ, ◌+◌, ◌-◌, ◌%◌, ◌^◌, Bool, true, false, List, [], ◌∷◌, Option, none, some, ltb, ◌==◌,
  if◌then◌else◌, mul64, Outcome, done, aborted, ◌>>=◌, ◌>>◌, emit, assert, return, or_abort,
}
use frontier_htsim.Fifo
use frontier_htsim.Network.{Packet}
use frontier_htsim.Queues.Effects.{Effect, pends, sends_on, frees}
use frontier_htsim.Queues.Utilization.{BaseQueue, drain_time, log_packet_send}
use frontier_htsim.Queues.Port.{Discipline}

pub record Queue : Type 0 where
  pub base : BaseQueue
  pub maxsize : ℕ
  pub queuesize : ℕ
  pub enqueued : List Packet
  pub num_drops : ℕ

unfoldable pub init : BaseQueue → ℕ → Queue
init base maxsize = record {
  base = base;
  maxsize = maxsize;
  queuesize = 0;
  enqueued = [];
  num_drops = 0;
}

unfoldable pub begin_service : Queue → Outcome Effect (Unit {0})
begin_service q = do
  head ← or_abort (Fifo.next_to_pop q.enqueued)
  emit (pends (drain_time q.base head))

unfoldable pub complete_service : Queue → ℕ → Outcome Effect Queue
unfolding begin_service
complete_service q now = do
  (pkt, rest) ← or_abort (Fifo.pop q.enqueued)
  base ← or_abort (log_packet_send q.base now (drain_time q.base pkt))
  emit (sends_on pkt)
  let q' = record q { base = base; enqueued = rest; queuesize = q.queuesize - pkt.size }
  if Fifo.empty rest then return q' else (do begin_service q'; return q')

unfoldable pub receive_packet : Queue → Packet → Outcome Effect Queue
unfolding begin_service
receive_packet q pkt =
    let q' = record q { enqueued = Fifo.push q.enqueued pkt; queuesize = q.queuesize + pkt.size } in
    if ltb q.maxsize (q.queuesize + pkt.size)
    then (do emit (frees pkt); return (record q { num_drops = q.num_drops + 1 }))
    else (if Fifo.empty q.enqueued
        then (do assert (Fifo.size q'.enqueued == 1); begin_service q'; return q')
        else return q')

unfoldable pub service_time : Queue → ℕ
service_time q = mul64 q.queuesize q.base.ps_per_byte

unfoldable pub discipline : Discipline Queue
unfolding receive_packet complete_service
discipline = record { receive = λ q now pkt. receive_packet q pkt; complete = complete_service }
