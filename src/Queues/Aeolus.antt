-- ===== src/Queues/Aeolus.antt =====
-- sim/aeolusqueue.h and sim/aeolusqueue.cpp: two queues, of which the low one admits speculative packets
-- only up to a threshold. What `random()` returns is an argument.
pub mod Laws
pub mod Runs
use frontier_htsim.Prelude.{
  ℕ, ◌+◌, ◌-◌, ◌*◌, ◌/◌, Bool, true, false, ◌&&◌, ◌||◌, not, List, [], ◌∷◌, Option, none, some, ltb,
  leb, if◌then◌else◌, Outcome, done, aborted, ◌>>=◌, ◌>>◌, emit, assert, return, or_abort,
}
use frontier_htsim.Fifo
use frontier_htsim.Network.{Packet, mark_ce, PktPriority, prio_lo, prio_mid, prio_hi, prio_none}
use frontier_htsim.Queues.Effects.{Effect, pends, sends_on, frees}
use frontier_htsim.Queues.Utilization.{BaseQueue, drain_time}

-- `_serv`
pub data Service : Type 0 where
  invalid serves_low serves_high : Service

pub record AeolusQueue : Type 0 where
  pub base : BaseQueue
  pub maxsize : ℕ
  pub speculative_thresh : ℕ
  pub enqueued_low : List Packet
  pub enqueued_high : List Packet
  pub queuesize_low : ℕ
  pub queuesize_high : ℕ
  pub serv : Service
  pub ratio_high : ℕ
  pub ratio_low : ℕ
  pub crt : ℕ
  pub ecn_minthresh : ℕ
  pub ecn_maxthresh : ℕ
  pub num_packets : ℕ
  pub num_speculative_packets : ℕ
  pub num_prio_packets : ℕ

unfoldable pub init : BaseQueue → ℕ → ℕ → Outcome Effect AeolusQueue
init base maxsize specsize = do
  assert (leb specsize maxsize)
  return (record {
    base = base;
    maxsize = maxsize;
    speculative_thresh = specsize;
    enqueued_low = [];
    enqueued_high = [];
    queuesize_low = 0;
    queuesize_high = 0;
    serv = invalid;
    ratio_high = 100000;
    ratio_low = 1;
    crt = 0;
    ecn_minthresh = maxsize * 2;
    ecn_maxthresh = maxsize * 2;
    num_packets = 0;
    num_speculative_packets = 0;
    num_prio_packets = 0;
  })

unfoldable pub serve_high : AeolusQueue → Outcome Effect AeolusQueue
serve_high q = do
  head ← or_abort (Fifo.next_to_pop q.enqueued_high)
  emit (pends (drain_time q.base head))
  return (record q { serv = serves_high })

unfoldable pub serve_low : AeolusQueue → Outcome Effect AeolusQueue
serve_low q = do
  head ← or_abort (Fifo.next_to_pop q.enqueued_low)
  emit (pends (drain_time q.base head))
  return (record q { serv = serves_low })

-- The part of `beginService` for two queues that both hold packets.
unfoldable pub take_turns : AeolusQueue → Outcome Effect AeolusQueue
unfolding serve_high serve_low
take_turns q =
    let next = if leb (q.ratio_high + q.ratio_low) (q.crt + 1) then 0 else q.crt + 1 in
    let q' = record q { crt = next } in
    if ltb next q.ratio_high
    then serve_high q'
    else (do assert (ltb next (q.ratio_high + q.ratio_low)); serve_low q')

unfoldable pub begin_service : AeolusQueue → Outcome Effect AeolusQueue
unfolding take_turns serve_high serve_low
begin_service q =
    if not (Fifo.empty q.enqueued_high) && not (Fifo.empty q.enqueued_low)
    then take_turns q
    else (if not (Fifo.empty q.enqueued_high)
        then serve_high q
        else (if not (Fifo.empty q.enqueued_low) then serve_low q else aborted))

unfoldable pub decide_ecn : AeolusQueue → ℕ → Bool
decide_ecn q random =
    if ltb q.ecn_maxthresh q.queuesize_low
    then true
    else (if ltb q.ecn_minthresh q.queuesize_low
        then ltb random
            (2147483647 * (q.queuesize_low - q.ecn_minthresh) / (q.ecn_maxthresh - q.ecn_minthresh))
        else false)

unfoldable pub mark : AeolusQueue → ℕ → Packet → Packet
unfolding decide_ecn
mark q random pkt = if decide_ecn q random then mark_ce pkt else pkt

-- A packet of the low queue leaves.
unfoldable pub take_low : AeolusQueue → ℕ → Outcome Effect (AeolusQueue × Packet)
take_low q random = do
  (pkt, rest) ← or_abort (Fifo.pop q.enqueued_low)
  let q' = record q { enqueued_low = rest; queuesize_low = q.queuesize_low - pkt.size }
  return (record q' { num_packets = q.num_packets + 1 }, mark q' random pkt)

unfoldable pub take_high : AeolusQueue → ℕ → Outcome Effect (AeolusQueue × Packet)
take_high q random = do
  (pkt, rest) ← or_abort (Fifo.pop q.enqueued_high)
  let q' = record q { enqueued_high = rest; queuesize_high = q.queuesize_high - pkt.size }
  return (record q' { num_prio_packets = q.num_prio_packets + 1 }, mark q' random pkt)

unfoldable pub take : Service → AeolusQueue → ℕ → Outcome Effect (AeolusQueue × Packet)
unfolding take_low take_high
take invalid q random = aborted
take serves_low q random = take_low q random
take serves_high q random = take_high q random

-- The end of `completeService`.
unfoldable pub serve_next : AeolusQueue → Outcome Effect AeolusQueue
unfolding begin_service
serve_next q =
    if not (Fifo.empty q.enqueued_high) || not (Fifo.empty q.enqueued_low)
    then begin_service q
    else return q

unfoldable pub complete_service : AeolusQueue → ℕ → Outcome Effect AeolusQueue
unfolding take
complete_service q random = do
  (q', pkt) ← take q.serv q random
  emit (sends_on pkt)
  serve_next (record q' { serv = invalid })

-- The end of `receivePacket`'s branches for a packet that is kept.
unfoldable pub start_if_idle : AeolusQueue → Outcome Effect AeolusQueue
unfolding begin_service
start_if_idle q = elim q.serv [
  | invalid ↦ begin_service q
  | serves_low ↦ return q
  | serves_high ↦ return q
]

unfoldable pub push_low : AeolusQueue → Packet → AeolusQueue
push_low q pkt = record q {
  enqueued_low = Fifo.push q.enqueued_low pkt;
  queuesize_low = q.queuesize_low + pkt.size;
}

unfoldable pub push_high : AeolusQueue → Packet → AeolusQueue
push_high q pkt = record q {
  enqueued_high = Fifo.push q.enqueued_high pkt;
  queuesize_high = q.queuesize_high + pkt.size;
}

-- The test for a packet of low or medium priority.
unfoldable pub admits_low : AeolusQueue → PktPriority → ℕ → Bool
admits_low q prio_lo size = ltb (q.queuesize_low + size) q.speculative_thresh
admits_low q prio_mid size = ltb (q.queuesize_low + size) q.maxsize
admits_low q prio_hi size = false
admits_low q prio_none size = false

unfoldable pub receive_high : AeolusQueue → Packet → Outcome Effect AeolusQueue
receive_high q pkt =
    if leb (q.queuesize_high + pkt.size) q.maxsize
    then start_if_idle (push_high q pkt)
    else done q (frees pkt ∷ [])

unfoldable pub receive_low : AeolusQueue → Packet → Outcome Effect AeolusQueue
receive_low q pkt =
    if admits_low q pkt.priority pkt.size
    then start_if_idle (push_low q pkt)
    else done q (frees pkt ∷ [])

unfoldable pub receive_at : PktPriority → AeolusQueue → Packet → Outcome Effect AeolusQueue
receive_at prio_none q pkt = aborted
receive_at prio_hi q pkt = receive_high q pkt
receive_at prio_mid q pkt = receive_low q pkt
receive_at prio_lo q pkt = receive_low q pkt

unfoldable pub receive_packet : AeolusQueue → Packet → Outcome Effect AeolusQueue
receive_packet q pkt = receive_at pkt.priority q pkt

unfoldable pub queuesize : AeolusQueue → ℕ
queuesize q = q.queuesize_low + q.queuesize_high
