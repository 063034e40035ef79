-- ===== src/Queues/CutPayload.antt =====
-- sim/cpqueue.h and sim/cpqueue.cpp: a first-in first-out queue that strips packets of their payload
-- when it is more than half full. It inherits the list and the service of `Queue`.
pub mod Laws
use frontier_htsim.Prelude.{
  ℕ, ◌+◌, ◌/◌, ◌≡◌, Bool, true, false, List, [], ◌∷◌, Option, none, some, ltb, if◌then◌else◌, arith,
  Outcome, done, aborted, ◌>>=◌, ◌>>◌, emit, return, or_abort,
}
use frontier_htsim.Fifo
use frontier_htsim.Network.{Packet, PacketType, has_type, ndpack, ndpnack, ndppull, strip_payload}
use frontier_htsim.Queues.Effects.{Effect, frees}
use frontier_htsim.Queues.Utilization.{BaseQueue}
use frontier_htsim.Queues.DropTail
use frontier_htsim.Queues.DropTail.{Queue}

pub record CutPayloadQueue : Type 0 where
  pub queue : Queue
  pub threshold : ℕ
  pub num_headers : ℕ
  pub num_packets : ℕ
  pub num_acks : ℕ
  pub num_nacks : ℕ
  pub num_pulls : ℕ
  pub num_stripped : ℕ

unfoldable pub init : BaseQueue → ℕ → CutPayloadQueue
init base maxsize = record {
  queue = DropTail.init base maxsize;
  threshold = maxsize / 2;
  num_headers = 0;
  num_packets = 0;
  num_acks = 0;
  num_nacks = 0;
  num_pulls = 0;
  num_stripped = 0;
}

-- The counters of what the queue sends.
unfoldable pub count_type : CutPayloadQueue → PacketType → CutPayloadQueue
count_type q t =
    if has_type t ndpack
    then record q { num_acks = q.num_acks + 1 }
    else (if has_type t ndpnack
        then record q { num_nacks = q.num_nacks + 1 }
        else (if has_type t ndppull
            then record q { num_pulls = q.num_pulls + 1 }
            else record q { num_headers = q.num_headers + 1 }))

-- `completeService` where the list ends with a packet, or is empty.
unfoldable pub send_head : CutPayloadQueue → ℕ → Option Packet → Outcome Effect CutPayloadQueue
unfolding count_type
send_head q now none = aborted
send_head q now (some pkt) = do
  queue ← DropTail.complete_service q.queue now
  return (record (count_type q pkt.type) { queue = queue })

unfoldable pub complete_service : CutPayloadQueue → ℕ → Outcome Effect CutPayloadQueue
unfolding send_head
complete_service q now = send_head q now (Fifo.next_to_pop q.queue.enqueued)

-- An arrival that would exceed the threshold loses its payload; `none` where `strip_payload` aborts.
unfoldable pub cut : CutPayloadQueue → Packet → Option (CutPayloadQueue × Packet)
cut q pkt =
    if ltb q.threshold (q.queue.queuesize + pkt.size)
    then (elim (strip_payload pkt) [
      | none ↦ none
      | some header ↦ some (record q { num_stripped = q.num_stripped + 1 }, header)
    ])
    else some (q, pkt)

-- The rest of `receivePacket`.
unfoldable pub put_or_drop : CutPayloadQueue → Packet → Outcome Effect CutPayloadQueue
put_or_drop q pkt =
    let q' = record q.queue {
      enqueued = Fifo.push q.queue.enqueued pkt;
      queuesize = q.queue.queuesize + pkt.size;
    } in
    if ltb q.queue.maxsize (q.queue.queuesize + pkt.size)
    then (do
      emit (frees pkt)
      return (record q { queue = record q.queue { num_drops = q.queue.num_drops + 1 } }))
    else (if Fifo.empty q.queue.enqueued
        then (do DropTail.begin_service q'; return (record q { queue = q' }))
        else return (record q { queue = q' }))

unfoldable pub receive_packet : CutPayloadQueue → Packet → Outcome Effect CutPayloadQueue
unfolding cut put_or_drop
receive_packet q pkt = do (q', pkt') ← or_abort (cut q pkt); put_or_drop q' pkt'
