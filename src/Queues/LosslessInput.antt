-- ===== src/Queues/LosslessInput.antt =====
-- sim/queue_lossless_input.h and sim/queue_lossless_input.cpp: the ingress side of a lossless port. It
-- holds no packets: it counts the bytes that came in and have not left the switch.
pub mod Credit
use frontier_htsim.Prelude.{
  ℕ, ◌+◌, ◌-◌, Bool, true, false, ◌&&◌, not, List, [], ◌∷◌, Option, none, some, length, ltb, leb,
  if◌then◌else◌, Outcome, done, aborted, ◌>>=◌, ◌>>◌, emit, assert, return, or_abort,
}
use frontier_htsim.Network.{Packet, Route}
use frontier_htsim.Queues.Effects.{Effect, sends_on2, signals, enters_switch}

-- `_state_recv` is only ever PAUSED or READY: `pausing` says which. `id` names the queue in packets.
pub record LosslessInputQueue : Type 0 where
  pub id : ℕ
  pub queuesize : ℕ
  pub pausing : Bool
  pub has_switch : Bool
  pub low_threshold : ℕ
  pub high_threshold : ℕ

unfoldable pub init : ℕ → Bool → ℕ → ℕ → Outcome Effect LosslessInputQueue
init id has_switch low high = do
  assert (ltb 0 high)
  assert (ltb low high)
  return (record {
    id = id;
    queuesize = 0;
    pausing = false;
    has_switch = has_switch;
    low_threshold = low;
    high_threshold = high;
  })

-- `sendPause` sends a PAUSE frame to the remote end, through the wire if there is one.
unfoldable pub send_pause : ℕ → Outcome Effect (Unit {0})
send_pause wait = emit (signals wait)

unfoldable pub count_in : LosslessInputQueue → ℕ → Outcome Effect LosslessInputQueue
unfolding send_pause
count_in q size = do
  let q' = record q { queuesize = q.queuesize + size }
  assert (ltb 0 q'.queuesize)
  if ltb q'.high_threshold q'.queuesize && not q'.pausing
      then (do send_pause 1000; return (record q' { pausing = true }))
      else return q'

-- `pkt.route()` is read without a test: with no route the program fails.
unfoldable pub pass_on : LosslessInputQueue → Packet → Outcome Effect (Unit {0})
pass_on q pkt = do
  route ← or_abort pkt.route
  if ltb pkt.nexthop (length route.sinks) then emit (sends_on2 pkt) else (do
    assert q.has_switch
    assert (elim pkt.ingressqueue [ none ↦ true | some i ↦ false ])
    emit (enters_switch (record pkt { ingressqueue = some q.id })))

unfoldable pub receive_packet : LosslessInputQueue → Packet → Outcome Effect LosslessInputQueue
unfolding count_in pass_on
receive_packet q pkt = do q' ← count_in q pkt.size; pass_on q' pkt; return q'

-- The assertion is `_queuesize >= 0` after the subtraction.
unfoldable pub completed_service : LosslessInputQueue → Packet → Outcome Effect LosslessInputQueue
unfolding send_pause
completed_service q pkt = do
  assert (leb pkt.size q.queuesize)
  let q' = record q { queuesize = q.queuesize - pkt.size }
  if ltb q'.queuesize q'.low_threshold && q'.pausing
      then (do send_pause 0; return (record q' { pausing = false }))
      else return q'
