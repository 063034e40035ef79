-- ===== src/Queues/Fair.antt =====
-- `FairPriorityQueue` of sim/queue.h and sim/queue.cpp: a host's queue with three priorities, each of
-- which takes turns over its flows. The packet in service has left its `FairPullQueue`.
pub mod Frames
use frontier_htsim.Prelude.{
  ℕ, ◌+◌, ◌-◌, Bool, true, false, List, [], ◌∷◌, Option, none, some, ltb, ◌==◌, mul64,
  if◌then◌else◌, ◌&&◌, Outcome, done, aborted, ◌>>=◌, ◌>>◌, emit, assert, return, or_abort,
}
use frontier_htsim.Network.{Packet, PktPriority, prio_lo, prio_mid, prio_hi, prio_none}
use frontier_htsim.Queues.Effects.{Effect, pends, sends_on, frees}
use frontier_htsim.Queues.Utilization.{BaseQueue, drain_time}
use frontier_htsim.Queues.Pause.{
  SendState, paused, ready, pause_received, is_ready, is_paused, settle_pause, is_pause,
}
use frontier_htsim.Queues.Priority.{Priority, q_lo, q_mid, q_hi, q_none, relay}
use frontier_htsim.Queues.Pull
use frontier_htsim.Queues.Pull.{FairPullQueue}

-- `_queue[prio]` and `_queuesize[prio]`.
pub record FairLevel : Type 0 where
  pub queue : FairPullQueue
  pub size : ℕ

pub record FairPriorityQueue : Type 0 where
  pub base : BaseQueue
  pub lo : FairLevel
  pub mid : FairLevel
  pub hi : FairLevel
  pub sending : Option Packet
  pub servicing : Priority
  pub state_send : SendState
  pub senders : List ℕ

unfoldable pub init : BaseQueue → List ℕ → FairPriorityQueue
init base senders = record {
  base = base;
  lo = record { queue = Pull.init; size = 0 };
  mid = record { queue = Pull.init; size = 0 };
  hi = record { queue = Pull.init; size = 0 };
  sending = none;
  servicing = q_none;
  state_send = ready;
  senders = senders;
}

unfoldable pub queuesize : FairPriorityQueue → ℕ
queuesize q = q.lo.size + q.mid.size + q.hi.size

-- `getPriority`; `none` is `abort`.
unfoldable pub priority_of : PktPriority → Option Priority
priority_of prio_lo = some q_lo
priority_of prio_mid = some q_mid
priority_of prio_hi = some q_hi
priority_of prio_none = none

unfoldable pub bytes_ahead : FairPriorityQueue → Priority → Option ℕ
bytes_ahead q q_lo = some (q.hi.size + q.mid.size + q.lo.size)
bytes_ahead q q_mid = some (q.hi.size + q.mid.size)
bytes_ahead q q_hi = some q.hi.size
bytes_ahead q q_none = none

unfoldable pub service_time : FairPriorityQueue → Packet → Outcome Effect ℕ
unfolding priority_of bytes_ahead
service_time q pkt = do
  prio ← or_abort (priority_of pkt.priority)
  ahead ← or_abort (bytes_ahead q prio)
  return (mul64 ahead q.base.ps_per_byte)

abbrev pub level : FairPriorityQueue → Priority → Option FairLevel
level q q_lo = some q.lo
level q q_mid = some q.mid
level q q_hi = some q.hi
level q q_none = none

abbrev pub set_level : FairPriorityQueue → Priority → FairLevel → FairPriorityQueue
set_level q q_lo l = record q { lo = l }
set_level q q_mid l = record q { mid = l }
set_level q q_hi l = record q { hi = l }
set_level q q_none l = q

-- What `beginService` does with the packet that a level's queue gave, or with none.
unfoldable pub start_sending :
    FairPriorityQueue → Priority → FairLevel → Option Packet → Outcome Effect FairPriorityQueue
start_sending q prio l none = aborted
start_sending q prio l (some pkt) =
    done (record (set_level q prio l) { sending = some pkt; servicing = prio })
      (pends (drain_time q.base pkt) ∷ [])

-- The body of its loop for a level that is not empty.
unfoldable pub serve_level :
    FairPriorityQueue → Priority → FairLevel → Outcome Effect FairPriorityQueue
unfolding start_sending
serve_level q prio l =
    Pull.dequeue l.queue >>= λ r. start_sending q prio (record l { queue = r.0 }) r.1

unfoldable pub begin_service : FairPriorityQueue → Outcome Effect FairPriorityQueue
unfolding serve_level
begin_service q = do
  assert (is_ready q.state_send)
  if ltb 0 q.hi.size
      then serve_level q q_hi q.hi
      else (if ltb 0 q.mid.size
          then serve_level q q_mid q.mid
          else (if ltb 0 q.lo.size then serve_level q q_lo q.lo else return q))

-- What a PAUSE frame does to the queue itself.
unfoldable pub obey_frame : FairPriorityQueue → Packet → Outcome Effect FairPriorityQueue
unfolding begin_service queuesize
obey_frame q p =
    let busy = ltb 0 (queuesize q) in
    if ltb 0 p.sleep_time
    then return (record q { state_send = if busy then pause_received else paused })
    else (if busy
        then begin_service (record q { state_send = ready })
        else return (record q { state_send = ready }))

unfoldable pub receive_pause : FairPriorityQueue → Packet → Outcome Effect FairPriorityQueue
unfolding obey_frame relay
receive_pause q p = do
  q' ← obey_frame q p
  relay q'.senders p.sleep_time p.sender_id
  emit (frees p)
  return q'

abbrev pub fair_enqueue : FairLevel → Packet → FairLevel
fair_enqueue l pkt = record { queue = Pull.enqueue l.queue pkt; size = l.size + pkt.size }

-- A queue over its limit only prints a line.
unfoldable pub receive_data : FairPriorityQueue → Packet → Outcome Effect FairPriorityQueue
unfolding begin_service queuesize
receive_data q pkt = do
  prio ← or_abort (priority_of pkt.priority)
  l ← or_abort (level q prio)
  let q' = set_level q prio (fair_enqueue l pkt)
  if (queuesize q == 0) && is_ready q.state_send then begin_service q' else return q'

unfoldable pub receive_packet : FairPriorityQueue → Packet → Outcome Effect FairPriorityQueue
unfolding receive_pause receive_data is_pause
receive_packet q pkt = if is_pause pkt then receive_pause q pkt else receive_data q pkt

-- The packet in service leaves; where there is none, the source prints a line and goes on.
unfoldable pub send_current :
    FairPriorityQueue → Option Packet → Option FairLevel → Outcome Effect FairPriorityQueue
send_current q none l = return q
send_current q (some pkt) none = return q
send_current q (some pkt) (some l) =
    done
      (record (set_level q q.servicing (record l { size = l.size - pkt.size })) { sending = none })
      (sends_on pkt ∷ [])

-- What follows in `completeService`.
unfoldable pub serve_again : FairPriorityQueue → Outcome Effect FairPriorityQueue
unfolding begin_service queuesize
serve_again q =
    let q' = record q { state_send = settle_pause q.state_send } in
    if ltb 0 (queuesize q') && is_ready q'.state_send
    then begin_service q'
    else return (record q' { servicing = q_none })

unfoldable pub complete_service : FairPriorityQueue → Outcome Effect FairPriorityQueue
unfolding send_current serve_again
complete_service q =
    if is_paused q.state_send
    then return q
    else (send_current q q.sending (level q q.servicing) >>= serve_again)
