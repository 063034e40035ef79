-- ===== src/Queues/Composite.antt =====
-- sim/compositequeue.h and sim/compositequeue.cpp: a queue that trims packets to their headers when it
-- is full, and serves headers first. What `drand() < 0.5` and `random()` return are arguments.
pub mod Laws
pub mod Trim
use frontier_htsim.Prelude.{
  ℕ, ◌+◌, ◌-◌, ◌*◌, ◌/◌, Bool, true, false, ◌&&◌, ◌||◌, not, List, [], ◌∷◌, Option, none, some, ltb,
  leb, if◌then◌else◌, Outcome, done, aborted, ◌>>=◌, ◌>>◌, emit, assert, return, or_abort, value,
}
use frontier_htsim.Fifo
use frontier_htsim.Network.{
  Packet, strip_payload, bounce, mark_ce, has_type, ndpack, ndpnack, ndppull,
}
use frontier_htsim.Queues.Effects.{Effect, pends, sends_on, frees}
use frontier_htsim.Queues.Utilization.{BaseQueue, drain_time}

-- `_serv`
pub data Service : Type 0 where
  invalid serves_low serves_high : Service

pub record CompositeQueue : Type 0 where
  pub base : BaseQueue
  pub maxsize : ℕ
  pub enqueued_low : List Packet
  pub enqueued_high : List Packet
  pub queuesize_low : ℕ
  pub queuesize_high : ℕ
  pub serv : Service
  pub ratio_high : ℕ
  pub ratio_low : ℕ
  pub crt : ℕ
  pub ecn_minthresh : ℕ
  pub ecn_maxthresh : ℕ
  pub return_to_sender : Bool
  pub num_packets : ℕ
  pub num_headers : ℕ
  pub num_acks : ℕ
  pub num_nacks : ℕ
  pub num_pulls : ℕ
  pub num_stripped : ℕ
  pub num_bounced : ℕ
  pub num_drops : ℕ

unfoldable pub init : BaseQueue → ℕ → CompositeQueue
init base maxsize = record {
  base = base;
  maxsize = maxsize;
  enqueued_low = [];
  enqueued_high = [];
  queuesize_low = 0;
  queuesize_high = 0;
  serv = invalid;
  ratio_high = 100000;
  ratio_low = 1;
  crt = 0;
  ecn_minthresh = maxsize * 2;
  ecn_maxthresh = maxsize * 2;
  return_to_sender = false;
  num_packets = 0;
  num_headers = 0;
  num_acks = 0;
  num_nacks = 0;
  num_pulls = 0;
  num_stripped = 0;
  num_bounced = 0;
  num_drops = 0;
}

unfoldable pub serve_high : CompositeQueue → Outcome Effect CompositeQueue
serve_high q = do
  head ← or_abort (Fifo.next_to_pop q.enqueued_high)
  emit (pends (drain_time q.base head))
  return (record q { serv = serves_high })

unfoldable pub serve_low : CompositeQueue → Outcome Effect CompositeQueue
serve_low q = do
  head ← or_abort (Fifo.next_to_pop q.enqueued_low)
  emit (pends (drain_time q.base head))
  return (record q { serv = serves_low })

-- The part of `beginService` for two queues that both hold packets.
unfoldable pub take_turns : CompositeQueue → Outcome Effect CompositeQueue
unfolding serve_high serve_low
take_turns q =
    let next = if leb (q.ratio_high + q.ratio_low) (q.crt + 1) then 0 else q.crt + 1 in
    let q' = record q { crt = next } in
    if ltb next q.ratio_high
    then serve_high q'
    else (do assert (ltb next (q.ratio_high + q.ratio_low)); serve_low q')

unfoldable pub begin_service : CompositeQueue → Outcome Effect CompositeQueue
unfolding take_turns serve_high serve_low
begin_service q =
    if not (Fifo.empty q.enqueued_high) && not (Fifo.empty q.enqueued_low)
    then take_turns q
    else (if not (Fifo.empty q.enqueued_high)
        then serve_high q
        else (if not (Fifo.empty q.enqueued_low) then serve_low q else aborted))

unfoldable pub decide_ecn : CompositeQueue → ℕ → Bool
decide_ecn q random =
    if ltb q.ecn_maxthresh q.queuesize_low
    then true
    else (if ltb q.ecn_minthresh q.queuesize_low
        then ltb random
            (2147483647 * (q.queuesize_low - q.ecn_minthresh) / (q.ecn_maxthresh - q.ecn_minthresh))
        else false)

unfoldable pub mark : CompositeQueue → ℕ → Packet → Packet
unfolding decide_ecn
mark q random pkt = if decide_ecn q random then mark_ce pkt else pkt

-- A packet of the low queue leaves.
unfoldable pub take_low : CompositeQueue → ℕ → Outcome Effect (CompositeQueue × Packet)
take_low q random = do
  (pkt, rest) ← or_abort (Fifo.pop q.enqueued_low)
  let q' = record q { enqueued_low = rest; queuesize_low = q.queuesize_low - pkt.size }
  return (record q' { num_packets = q.num_packets + 1 }, mark q' random pkt)

-- A packet of the high queue is counted by its type; a header is marked too.
unfoldable pub count_high : CompositeQueue → ℕ → Packet → CompositeQueue × Packet
count_high q random pkt =
    if has_type pkt.type ndpack
    then (record q { num_acks = q.num_acks + 1 }, pkt)
    else (if has_type pkt.type ndpnack
        then (record q { num_nacks = q.num_nacks + 1 }, pkt)
        else (if has_type pkt.type ndppull
            then (record q { num_pulls = q.num_pulls + 1 }, pkt)
            else (record q { num_headers = q.num_headers + 1 }, mark q random pkt)))

unfoldable pub take_high : CompositeQueue → ℕ → Outcome Effect (CompositeQueue × Packet)
unfolding count_high
take_high q random = do
  (pkt, rest) ← or_abort (Fifo.pop q.enqueued_high)
  return (
      count_high (record q { enqueued_high = rest; queuesize_high = q.queuesize_high - pkt.size })
        random pkt)

unfoldable pub take : Service → CompositeQueue → ℕ → Outcome Effect (CompositeQueue × Packet)
unfolding take_low take_high
take invalid q random = aborted
take serves_low q random = take_low q random
take serves_high q random = take_high q random

-- The end of `completeService`.
unfoldable pub serve_next : CompositeQueue → Outcome Effect CompositeQueue
unfolding begin_service
serve_next q =
    if not (Fifo.empty q.enqueued_high) || not (Fifo.empty q.enqueued_low)
    then begin_service q
    else return q

unfoldable pub complete_service : CompositeQueue → ℕ → Outcome Effect CompositeQueue
unfolding take
complete_service q random = do
  (q', pkt) ← take q.serv q random
  emit (sends_on pkt)
  serve_next (record q' { serv = invalid })

-- The end of `receivePacket`'s branches for a packet that is kept.
unfoldable pub start_if_idle : CompositeQueue → Outcome Effect CompositeQueue
unfolding begin_service
start_if_idle q = elim q.serv [
  | invalid ↦ begin_service q
  | serves_low ↦ return q
  | serves_high ↦ return q
]

unfoldable pub push_low : CompositeQueue → Packet → CompositeQueue
push_low q pkt = record q {
  enqueued_low = Fifo.push q.enqueued_low pkt;
  queuesize_low = q.queuesize_low + pkt.size;
}

unfoldable pub push_high : CompositeQueue → Packet → CompositeQueue
push_high q pkt = record q {
  enqueued_high = Fifo.push q.enqueued_high pkt;
  queuesize_high = q.queuesize_high + pkt.size;
}

-- `_return_to_sender && pkt.reverse_route() && pkt.bounced() == false`; `reverse_route` reads the route
-- without a test.
unfoldable pub returns_to_sender : CompositeQueue → Packet → Outcome Effect Bool
returns_to_sender q pkt =
    if q.return_to_sender
    then (do
      route ← or_abort pkt.route
      return ((elim route.reverse [ none ↦ false | some r ↦ true ]) && not pkt.bounced))
    else return false

unfoldable pub send_back : CompositeQueue → Packet → Outcome Effect CompositeQueue
send_back q pkt = do
  pkt' ← or_abort (value (bounce pkt))
  emit (sends_on pkt')
  return (record q { num_bounced = q.num_bounced + 1 })

-- The header of a packet that was booted. A header without room is returned or freed; freeing it is
-- not counted as a drop.
unfoldable pub place_header : CompositeQueue → Packet → Outcome Effect CompositeQueue
unfolding returns_to_sender send_back push_high
place_header q header =
    if ltb (2 * q.maxsize) (q.queuesize_high + header.size)
    then (do
      back ← returns_to_sender q header
      if back then send_back q header else (do emit (frees header); return q))
    else return (push_high q header)

-- The newest packet of the low queue becomes a header.
unfoldable pub boot : CompositeQueue → Outcome Effect CompositeQueue
boot q = do
  (booted, rest) ← or_abort (Fifo.pop_front q.enqueued_low)
  header ← or_abort (strip_payload booted)
  place_header
      (record q {
        enqueued_low = rest;
        queuesize_low = q.queuesize_low - booted.size;
        num_stripped = q.num_stripped + 1;
      })
      header

-- A packet that is a header, or has just become one.
unfoldable pub receive_header : CompositeQueue → Packet → Outcome Effect CompositeQueue
receive_header q pkt = do
  assert pkt.is_header
  if ltb (2 * q.maxsize) (q.queuesize_high + pkt.size)
      then (do
        back ← returns_to_sender q pkt
        if back
            then send_back q pkt
            else (do emit (frees pkt); return (record q { num_drops = q.num_drops + 1 })))
      else start_if_idle (push_high q pkt)

-- A packet with its payload that goes into the low queue.
unfoldable pub receive_whole : CompositeQueue → Packet → Outcome Effect CompositeQueue
receive_whole q pkt = do
  q' ← if ltb q.maxsize (q.queuesize_low + pkt.size) then boot q else return q
  start_if_idle (push_low q' pkt)

-- `heads` is `drand() < 0.5`.
unfoldable pub receive_packet : CompositeQueue → Bool → Packet → Outcome Effect CompositeQueue
receive_packet q heads pkt =
    if pkt.is_header
    then receive_header q pkt
    else (if leb (q.queuesize_low + pkt.size) q.maxsize || heads then receive_whole q pkt else (do
      header ← or_abort (strip_payload pkt)
      receive_header (record q { num_stripped = q.num_stripped + 1 }) header))

unfoldable pub queuesize : CompositeQueue → ℕ
queuesize q = q.queuesize_low + q.queuesize_high
