-- ===== src/Queues/CtrlPrio.antt =====
-- sim/prioqueue.h and sim/prioqueue.cpp: two queues for NDP, the high one served first, where a packet
-- that finds its queue full is dropped or takes the place of the newest. What `drand() < 0.5` gives is
-- an argument; `front()` of an empty list is a failed assertion.
pub mod Laws
pub mod Arrivals
pub mod Drops
pub mod Runs
use frontier_htsim.Prelude.{
  ℕ, ◌+◌, ◌-◌, Bool, true, false, ◌||◌, not, List, [], ◌∷◌, Option, none, some, ltb, if◌then◌else◌,
  Outcome, done, aborted, ◌>>=◌, ◌>>◌, emit, assert, return, or_abort,
}
use frontier_htsim.Fifo
use frontier_htsim.Network.{
  Packet, PacketType, has_type, ndpack, ndpnack, ndppull, ndplite, ndpliteack, ndplitepull,
  ndpliterts, PktPriority, prio_lo, prio_mid, prio_hi, prio_none,
}
use frontier_htsim.Queues.Effects.{Effect, pends, sends_on, frees}
use frontier_htsim.Queues.Utilization.{BaseQueue, drain_time}

-- `queue_priority_t`
pub data CtrlBand : Type 0 where
  q_lo q_hi q_none : CtrlBand

-- The values of `_serv`.
pub data CtrlServ : Type 0 where
  queue_invalid queue_low queue_high : CtrlServ

-- `_enqueued_low` and `_queuesize_low`, or `_enqueued_high` and `_queuesize_high`.
pub record CtrlLane : Type 0 where
  pub enqueued : List Packet
  pub size : ℕ

pub record CtrlPrioQueue : Type 0 where
  pub base : BaseQueue
  pub maxsize : ℕ
  pub low : CtrlLane
  pub high : CtrlLane
  pub num_packets : ℕ
  pub num_acks : ℕ
  pub num_nacks : ℕ
  pub num_pulls : ℕ
  pub num_drops : ℕ
  pub serv : CtrlServ

unfoldable pub init : BaseQueue → ℕ → CtrlPrioQueue
init base maxsize = record {
  base = base;
  maxsize = maxsize;
  low = record { enqueued = []; size = 0 };
  high = record { enqueued = []; size = 0 };
  num_packets = 0;
  num_acks = 0;
  num_nacks = 0;
  num_pulls = 0;
  num_drops = 0;
  serv = queue_invalid;
}

-- A branch of `beginService`.
unfoldable pub serve_ctrl : CtrlPrioQueue → CtrlServ → List Packet → Outcome Effect CtrlPrioQueue
serve_ctrl q serv enqueued = do
  head ← or_abort (Fifo.next_to_pop enqueued)
  emit (pends (drain_time q.base head))
  return (record q { serv = serv })

unfoldable pub begin_service : CtrlPrioQueue → Outcome Effect CtrlPrioQueue
unfolding serve_ctrl
begin_service q =
    if not (Fifo.empty q.high.enqueued)
    then serve_ctrl q queue_high q.high.enqueued
    else (if not (Fifo.empty q.low.enqueued)
        then serve_ctrl q queue_low q.low.enqueued
        else aborted)

abbrev pub pop_ctrl : CtrlLane → Option (Packet × CtrlLane)
pop_ctrl l = elim (Fifo.pop l.enqueued) [
  | none ↦ none
  | some (pkt, rest) ↦ some (pkt, record l { enqueued = rest; size = l.size - pkt.size })
]

abbrev pub is_ack : PacketType → Bool
is_ack t = has_type t ndpack || has_type t ndpliteack

abbrev pub is_pull : PacketType → Bool
is_pull t = has_type t ndppull || has_type t ndplitepull

-- The counters of what the high queue sends; another type is `abort`.
unfoldable pub count_control : CtrlPrioQueue → PacketType → Outcome Effect CtrlPrioQueue
count_control q t =
    if is_ack t
    then return (record q { num_acks = q.num_acks + 1 })
    else (if has_type t ndpnack
        then return (record q { num_nacks = q.num_nacks + 1 })
        else (if is_pull t then return (record q { num_pulls = q.num_pulls + 1 }) else aborted))

-- The packet in service leaves its queue.
unfoldable pub take : CtrlServ → CtrlPrioQueue → Outcome Effect (CtrlPrioQueue × Packet)
unfolding count_control
take queue_invalid q = aborted
take queue_low q = do
  (pkt, lane) ← or_abort (pop_ctrl q.low)
  return (record q { low = lane; num_packets = q.num_packets + 1 }, pkt)
take queue_high q = do
  (pkt, lane) ← or_abort (pop_ctrl q.high)
  q' ← count_control (record q { high = lane }) pkt.type
  return (q', pkt)

-- The end of `completeService`.
unfoldable pub serve_next : CtrlPrioQueue → Outcome Effect CtrlPrioQueue
unfolding begin_service
serve_next q =
    if not (Fifo.empty q.high.enqueued) || not (Fifo.empty q.low.enqueued)
    then begin_service q
    else return q

unfoldable pub complete_service : CtrlPrioQueue → Outcome Effect CtrlPrioQueue
unfolding take serve_next
complete_service q = do
  (q', pkt) ← take q.serv q
  emit (sends_on pkt)
  serve_next (record q' { serv = queue_invalid })

-- `getPriority`; `none` is `abort`.
unfoldable pub ctrl_band : PktPriority → Option CtrlBand
ctrl_band prio_lo = some q_lo
ctrl_band prio_mid = none
ctrl_band prio_hi = some q_hi
ctrl_band prio_none = none

-- The types of an arriving packet for which a drop is reported; another one is `abort`.
unfoldable pub reported : PacketType → Bool
reported t = has_type t ndpliterts || has_type t ndplite || has_type t ndpliteack

abbrev pub push_ctrl : CtrlLane → Packet → CtrlLane
push_ctrl l pkt = record l { enqueued = Fifo.push l.enqueued pkt; size = l.size + pkt.size }

-- What is dropped where the queue is full, and what the queue then holds.
unfoldable pub evict : CtrlLane → Bool → Packet → Option (CtrlLane × Packet)
evict l true pkt = some (l, pkt)
evict l false pkt = elim (Fifo.pop_front l.enqueued) [
  | none ↦ none
  | some (newest, rest) ↦
      some (push_ctrl (record l { enqueued = rest; size = l.size - newest.size }) pkt, newest)
]

-- An arrival at one of the two queues, with how many packets are dropped.
unfoldable pub store : ℕ → CtrlLane → Bool → Packet → Outcome Effect (CtrlLane × ℕ)
unfolding evict reported
store maxsize l coin pkt =
    if ltb maxsize (l.size + pkt.size)
    then (do
      (l', dropped) ← or_abort (evict l coin pkt)
      assert (reported pkt.type)
      emit (frees dropped)
      return (l', 1))
    else return (push_ctrl l pkt, 0)

unfoldable pub start_if_idle : CtrlPrioQueue → Outcome Effect CtrlPrioQueue
unfolding begin_service
start_if_idle q = elim q.serv [
  | queue_invalid ↦ begin_service q
  | queue_low ↦ return q
  | queue_high ↦ return q
]

unfoldable pub receive_at :
    Option CtrlBand → CtrlPrioQueue → Bool → Packet → Outcome Effect CtrlPrioQueue
unfolding store start_if_idle
receive_at none q coin pkt = aborted
receive_at (some q_none) q coin pkt = aborted
receive_at (some q_lo) q coin pkt = do
  (l, drops) ← store q.maxsize q.low coin pkt
  start_if_idle (record q { low = l; num_drops = q.num_drops + drops })
receive_at (some q_hi) q coin pkt = do
  (l, drops) ← store q.maxsize q.high coin pkt
  start_if_idle (record q { high = l; num_drops = q.num_drops + drops })

unfoldable pub receive_packet : CtrlPrioQueue → Bool → Packet → Outcome Effect CtrlPrioQueue
unfolding receive_at ctrl_band
receive_packet q coin pkt = receive_at (ctrl_band pkt.priority) q coin pkt

unfoldable pub queuesize : CtrlPrioQueue → ℕ
queuesize q = q.low.size + q.high.size
