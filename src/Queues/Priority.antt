-- ===== src/Queues/Priority.antt =====
-- `PriorityQueue` of sim/queue.h and sim/queue.cpp: a host's queue with three priorities, which obeys
-- PAUSE frames and passes them on to the senders of its host.
pub mod Pauses
use frontier_htsim.Prelude.{
  ℕ, ◌+◌, ◌-◌, Bool, true, false, ◌&&◌, List, [], ◌∷◌, Option, none, some, length, ltb, ◌==◌, mul64,
  if◌then◌else◌, Outcome, done, aborted, ◌>>=◌, ◌>>◌, emit, assert, return, or_abort,
}
use frontier_htsim.Fifo
use frontier_htsim.Network.{Packet, PktPriority, prio_lo, prio_mid, prio_hi, prio_none}
use frontier_htsim.Queues.Effects.{Effect, pends, sends_on, frees, relays}
use frontier_htsim.Queues.Utilization.{BaseQueue, drain_time}
use frontier_htsim.Queues.Pause.{
  SendState, paused, ready, pause_received, is_ready, settle_pause, is_pause,
}

-- `queue_priority_t`
pub data Priority : Type 0 where
  q_lo q_mid q_hi q_none : Priority

-- `_queue[prio]`, oldest packet first, and `_queuesize[prio]`.
pub record Level : Type 0 where
  pub held : List Packet
  pub size : ℕ

pub record PriorityQueue : Type 0 where
  pub base : BaseQueue
  pub lo : Level
  pub mid : Level
  pub hi : Level
  pub servicing : Priority
  pub state_send : SendState
  pub senders : List ℕ

unfoldable pub init : BaseQueue → List ℕ → PriorityQueue
init base senders = record {
  base = base;
  lo = record { held = []; size = 0 };
  mid = record { held = []; size = 0 };
  hi = record { held = []; size = 0 };
  servicing = q_none;
  state_send = ready;
  senders = senders;
}

unfoldable pub queuesize : PriorityQueue → ℕ
queuesize q = q.lo.size + q.mid.size + q.hi.size

-- `none` is `abort`.
unfoldable pub get_priority : PktPriority → Option Priority
get_priority prio_lo = some q_lo
get_priority prio_mid = some q_mid
get_priority prio_hi = some q_hi
get_priority prio_none = none

unfoldable pub bytes_before : PriorityQueue → Priority → Option ℕ
bytes_before q q_lo = some (q.hi.size + q.mid.size + q.lo.size)
bytes_before q q_mid = some (q.hi.size + q.mid.size)
bytes_before q q_hi = some q.hi.size
bytes_before q q_none = none

unfoldable pub service_time : PriorityQueue → Packet → Outcome Effect ℕ
unfolding get_priority bytes_before
service_time q pkt = do
  prio ← or_abort (get_priority pkt.priority)
  ahead ← or_abort (bytes_before q prio)
  return (mul64 ahead q.base.ps_per_byte)

-- The body of the loop for a level that is not empty; `back()` of an empty list is undefined.
unfoldable pub serve : PriorityQueue → Priority → Level → Outcome Effect PriorityQueue
serve q prio level = do
  head ← or_abort (Fifo.next_to_pop level.held)
  emit (pends (drain_time q.base head))
  return (record q { servicing = prio })

unfoldable pub begin_service : PriorityQueue → Outcome Effect PriorityQueue
unfolding serve
begin_service q = do
  assert (is_ready q.state_send)
  if ltb 0 q.hi.size
      then serve q q_hi q.hi
      else (if ltb 0 q.mid.size
          then serve q q_mid q.mid
          else (if ltb 0 q.lo.size then serve q q_lo q.lo else return q))

-- The loop over `_senders`, from the `i`-th on.
unfoldable pub relay : List ℕ → ℕ → ℕ → Outcome Effect (Unit {0})
relay [] t s = return tt
relay (i ∷ is) t s = do emit (relays i t s); relay is t s

-- What a PAUSE frame does to the queue itself.
unfoldable pub obey_pause : PriorityQueue → Packet → Outcome Effect PriorityQueue
unfolding begin_service queuesize
obey_pause q p =
    if ltb 0 p.sleep_time && is_ready q.state_send
    then return (record q { state_send = if ltb 0 (queuesize q) then pause_received else paused })
    else (if is_ready q.state_send
        then return q
        else (if ltb 0 (queuesize q)
            then begin_service (record q { state_send = ready })
            else return (record q { state_send = ready })))

unfoldable pub receive_pause : PriorityQueue → Packet → Outcome Effect PriorityQueue
unfolding obey_pause relay
receive_pause q p = do
  q' ← obey_pause q p
  relay q'.senders p.sleep_time p.sender_id
  emit (frees p)
  return q'

abbrev pub enqueue : Level → Packet → Level
enqueue l pkt = record { held = Fifo.push l.held pkt; size = l.size + pkt.size }

unfoldable pub put : PriorityQueue → Priority → Packet → Option PriorityQueue
put q q_lo pkt = some (record q { lo = enqueue q.lo pkt })
put q q_mid pkt = some (record q { mid = enqueue q.mid pkt })
put q q_hi pkt = some (record q { hi = enqueue q.hi pkt })
put q q_none pkt = none

unfoldable pub receive_data : PriorityQueue → Packet → Outcome Effect PriorityQueue
unfolding begin_service queuesize
receive_data q pkt = do
  prio ← or_abort (get_priority pkt.priority)
  q' ← or_abort (put q prio pkt)
  if queuesize q == 0 && is_ready q.state_send
      then (do
        assert (length q'.lo.held + length q'.mid.held + length q'.hi.held == 1)
        begin_service q')
      else return q'

unfoldable pub receive_packet : PriorityQueue → Packet → Outcome Effect PriorityQueue
unfolding receive_pause receive_data is_pause
receive_packet q pkt = if is_pause pkt then receive_pause q pkt else receive_data q pkt

-- The oldest packet of the level in service, and the level without it; `none` is a level with no
-- packet.
abbrev pub dequeue : Level → Option (Packet × Level)
dequeue l = elim (Fifo.pop l.held) [
  | none ↦ none
  | some (pkt, rest) ↦ some (pkt, record { held = rest; size = l.size - pkt.size })
]

unfoldable pub take : PriorityQueue → Priority → Option (Packet × PriorityQueue)
take q q_lo = elim (dequeue q.lo) [ none ↦ none | some (pkt, l) ↦ some (pkt, record q { lo = l }) ]
take q q_mid = elim (dequeue q.mid) [
  | none ↦ none
  | some (pkt, l) ↦ some (pkt, record q { mid = l })
]
take q q_hi = elim (dequeue q.hi) [ none ↦ none | some (pkt, l) ↦ some (pkt, record q { hi = l }) ]
take q q_none = none

-- Where there is nothing to take, the source prints a line and goes on.
unfoldable pub send_head : PriorityQueue → Outcome Effect PriorityQueue
unfolding take
send_head q = elim (take q q.servicing) [
  | none ↦ return q
  | some (pkt, q') ↦ done q' (sends_on pkt ∷ [])
]

unfoldable pub complete_service : PriorityQueue → Outcome Effect PriorityQueue
unfolding send_head begin_service queuesize
complete_service q = do
  sent ← send_head q
  let q' = record sent { state_send = settle_pause sent.state_send }
  if ltb 0 (queuesize q')
      then (if is_ready q'.state_send then begin_service q' else return q')
      else return (record q' { servicing = q_none })
