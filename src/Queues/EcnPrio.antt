-- ===== src/Queues/EcnPrio.antt =====
-- sim/ecnprioqueue.h and sim/ecnprioqueue.cpp: two queues, the high one served first, with marks set
-- by the length at the start of a service. What the test of `rand()` gives is an argument.
pub mod Laws
pub mod Runs
use frontier_htsim.Prelude.{
  ℕ, ◌+◌, ◌-◌, ◌*◌, Bool, true, false, ◌&&◌, ◌||◌, not, List, [], ◌∷◌, Option, none, some, ltb,
  if◌then◌else◌, Outcome, done, aborted, ◌>>=◌, ◌>>◌, emit, assert, return, or_abort,
}
use frontier_htsim.Fifo
use frontier_htsim.Network.{Packet, mark_ce, PktPriority, prio_lo, prio_mid, prio_hi, prio_none}
use frontier_htsim.Queues.Effects.{Effect, pends, sends_on, frees}
use frontier_htsim.Queues.Utilization.{BaseQueue, drain_time}

-- `queue_priority_t`
pub data Band : Type 0 where
  band_lo band_hi band_none : Band

-- The elements of `_enqueued`, `_queuesize`, `_maxsize` and `_ecn_thresh` for one priority.
pub record Lane : Type 0 where
  pub enqueued : List Packet
  pub size : ℕ
  pub maxsize : ℕ
  pub ecn_thresh : ℕ

pub record EcnPrioQueue : Type 0 where
  pub base : BaseQueue
  pub lo : Lane
  pub hi : Lane
  pub num_packets : ℕ
  pub num_drops : ℕ
  pub serv : Band
  pub ecn : Bool

unfoldable pub init : BaseQueue → ℕ → ℕ → ℕ → ℕ → EcnPrioQueue
init base maxsize_hi maxsize_lo ecn_thresh_hi ecn_thresh_lo = record {
  base = base;
  lo = record { enqueued = []; size = 0; maxsize = maxsize_lo; ecn_thresh = ecn_thresh_lo };
  hi = record { enqueued = []; size = 0; maxsize = maxsize_hi; ecn_thresh = ecn_thresh_hi };
  num_packets = 0;
  num_drops = 0;
  serv = band_none;
  ecn = false;
}

-- A branch of `beginService`.
unfoldable pub serve_lane : EcnPrioQueue → Band → Lane → Outcome Effect EcnPrioQueue
serve_lane q band lane = do
  head ← or_abort (Fifo.next_to_pop lane.enqueued)
  emit (pends (drain_time q.base head))
  return (record q { serv = band; ecn = ltb lane.ecn_thresh lane.size })

unfoldable pub begin_service : EcnPrioQueue → Outcome Effect EcnPrioQueue
unfolding serve_lane
begin_service q =
    if not (Fifo.empty q.hi.enqueued)
    then serve_lane q band_hi q.hi
    else (if not (Fifo.empty q.lo.enqueued) then serve_lane q band_lo q.lo else aborted)

abbrev pub pop_lane : Lane → Option (Packet × Lane)
pop_lane l = elim (Fifo.pop l.enqueued) [
  | none ↦ none
  | some (pkt, rest) ↦ some (pkt, record l { enqueued = rest; size = l.size - pkt.size })
]

-- The packet in service leaves its queue.
unfoldable pub take : Band → EcnPrioQueue → Outcome Effect (EcnPrioQueue × Packet)
take band_none q = aborted
take band_lo q = do
  (pkt, lane) ← or_abort (pop_lane q.lo)
  return (record q { lo = lane; num_packets = q.num_packets + 1 }, pkt)
take band_hi q = do
  (pkt, lane) ← or_abort (pop_lane q.hi)
  return (record q { hi = lane; num_packets = q.num_packets + 1 }, pkt)

-- The end of `completeService`.
unfoldable pub serve_next : EcnPrioQueue → Outcome Effect EcnPrioQueue
unfolding begin_service
serve_next q =
    if not (Fifo.empty q.hi.enqueued) || not (Fifo.empty q.lo.enqueued)
    then begin_service q
    else return q

unfoldable pub complete_service : EcnPrioQueue → Outcome Effect EcnPrioQueue
unfolding take
complete_service q = do
  (q', pkt) ← take q.serv q
  emit (sends_on (if q.ecn then mark_ce pkt else pkt))
  serve_next (record q' { serv = band_none })

-- `getPriority`; `none` is `abort`.
unfoldable pub band_of : PktPriority → Option Band
band_of prio_lo = some band_lo
band_of prio_mid = none
band_of prio_hi = some band_hi
band_of prio_none = none

-- The test for a drop; `coin` is `rand()&0x01`.
unfoldable pub overflows : Lane → ℕ → Bool → Bool
overflows lane size coin =
    ltb lane.maxsize (lane.size + size) || (ltb lane.maxsize (lane.size + 2 * size) && coin)

abbrev pub push_lane : Lane → Packet → Lane
push_lane l pkt = record l { enqueued = Fifo.push l.enqueued pkt; size = l.size + pkt.size }

unfoldable pub start_if_idle : EcnPrioQueue → Outcome Effect EcnPrioQueue
unfolding begin_service
start_if_idle q = elim q.serv [
  | band_none ↦ begin_service q
  | band_lo ↦ return q
  | band_hi ↦ return q
]

unfoldable pub drop_packet : EcnPrioQueue → Packet → Outcome Effect EcnPrioQueue
drop_packet q pkt = done (record q { num_drops = q.num_drops + 1 }) (frees pkt ∷ [])

unfoldable pub receive_at : Option Band → EcnPrioQueue → Bool → Packet → Outcome Effect EcnPrioQueue
unfolding overflows start_if_idle drop_packet
receive_at none q coin pkt = aborted
receive_at (some band_none) q coin pkt = aborted
receive_at (some band_lo) q coin pkt =
    if overflows q.lo pkt.size coin
    then drop_packet q pkt
    else start_if_idle (record q { lo = push_lane q.lo pkt })
receive_at (some band_hi) q coin pkt =
    if overflows q.hi pkt.size coin
    then drop_packet q pkt
    else start_if_idle (record q { hi = push_lane q.hi pkt })

unfoldable pub receive_packet : EcnPrioQueue → Bool → Packet → Outcome Effect EcnPrioQueue
unfolding receive_at band_of
receive_packet q coin pkt = receive_at (band_of pkt.priority) q coin pkt

unfoldable pub queuesize : EcnPrioQueue → ℕ
queuesize q = q.lo.size + q.hi.size
