-- ===== src/Eqds/Nic.antt =====
-- `EqdsNIC` of sim/eqds.h and sim/eqds.cpp, with its sources named by numbers. Times are taken not to
-- wrap, and the link to have a speed.
pub mod Laws
pub mod Requests
pub mod Calls
pub mod Control
pub mod Answers
pub mod Runs
use frontier_htsim.Prelude.{
  ℕ, ◌+◌, ◌-◌, ◌*◌, ◌/◌, ◌%◌, ◌^◌, Bool, true, false, not, ◌&&◌, ◌||◌, List, [], ◌∷◌, ltb, leb,
  ◌==◌, if◌then◌else◌, length, add64, sub64, Outcome, aborted, ◌>>=◌, ◌>>◌, emit, assert, return,
}
use frontier_htsim.Fifo
use frontier_htsim.Network.{Packet}

pub record EqdsNic : Type 0 where
  pub active_srcs : List ℕ
  pub control : List Packet
  pub control_size : ℕ
  pub linkspeed : ℕ
  pub num_queued_srcs : ℕ
  pub send_end_time : ℕ
  pub last_pktsize : ℕ
  pub ratio_data : ℕ
  pub ratio_control : ℕ
  pub crt : ℕ

-- The constructor; `_control_size`, which it does not set, is an argument, as a word of 64 bits.
unfoldable pub init : ℕ → ℕ → EqdsNic
init linkspeed control_size = record {
  active_srcs = [];
  control = [];
  control_size = control_size;
  linkspeed = linkspeed;
  num_queued_srcs = 0;
  send_end_time = 0;
  last_pktsize = 0;
  ratio_data = 1;
  ratio_control = 20;
  crt = 0;
}

-- `schedules` is `sourceIsPending` of the NIC, `lets_send` the `timeToSend` of a source, and `sends` a
-- control packet's `sendOn`.
pub data NicEffect : Type 0 where
  schedules lets_send : ℕ → NicEffect
  sends : Packet → NicEffect

-- The time that a packet takes.
unfoldable pub delta : EqdsNic → ℕ → ℕ
delta nic pkt_size = pkt_size * 8 * 10 ^ 12 / nic.linkspeed

unfoldable pub waiting : EqdsNic → Bool
waiting nic = ltb 0 nic.num_queued_srcs || not (Fifo.empty nic.control)

-- The end of a transmission is scheduled if anyone waits for it.
unfoldable pub schedule_next : EqdsNic → Outcome NicEffect EqdsNic
unfolding waiting
schedule_next nic =
    if waiting nic then (do emit (schedules nic.send_end_time); return nic) else return nic

unfoldable pub request_sending : EqdsNic → ℕ → ℕ → Outcome NicEffect (EqdsNic × Bool)
unfolding waiting
request_sending nic src now =
    let queued = record nic {
      num_queued_srcs = nic.num_queued_srcs + 1;
      active_srcs = Fifo.push nic.active_srcs src;
    } in
    if leb now nic.send_end_time
    then (if not (waiting nic)
        then (do emit (schedules nic.send_end_time); return (queued, false))
        else return (queued, false))
    else (do assert (not (waiting nic)); return (nic, true))

-- The first of the sources that wait, which is the one that calls, is taken off.
unfoldable pub dequeue_src : EqdsNic → ℕ → List ℕ → Outcome NicEffect EqdsNic
dequeue_src nic src [] = aborted
dequeue_src nic src (queued_src ∷ rest) = do
  assert (queued_src == src)
  return (record nic { active_srcs = rest; num_queued_srcs = nic.num_queued_srcs - 1 })

unfoldable pub start_sending : EqdsNic → ℕ → ℕ → ℕ → Outcome NicEffect EqdsNic
unfolding dequeue_src delta schedule_next
start_sending nic src pkt_size now = do
  nic' ← if ltb 0 nic.num_queued_srcs then dequeue_src nic src nic.active_srcs else return nic
  assert (leb nic'.send_end_time now)
  schedule_next (record nic' { send_end_time = now + delta nic' pkt_size })

-- `timeToSend` of the first source, and the first control packet goes out.
unfoldable pub let_send : EqdsNic → List ℕ → Outcome NicEffect EqdsNic
let_send nic [] = aborted
let_send nic (src ∷ rest) = do emit (lets_send src); return nic

unfoldable pub send_first : EqdsNic → ℕ → List Packet → Outcome NicEffect EqdsNic
unfolding delta schedule_next
send_first nic now [] = aborted
send_first nic now (p ∷ rest) = do
  emit (sends p)
  schedule_next (record nic {
    control = rest;
    control_size = sub64 nic.control_size (p.size % 2 ^ 64);
    send_end_time = now + delta nic p.size;
  })

-- `cantSend` where sources wait.
unfoldable pub pass_turn : EqdsNic → ℕ → ℕ → Outcome NicEffect EqdsNic
unfolding dequeue_src let_send send_first
pass_turn nic src now = do
  nic' ← dequeue_src nic src nic.active_srcs
  assert (leb nic'.send_end_time now)
  if ltb 0 nic'.num_queued_srcs
      then let_send nic' nic'.active_srcs
      else (if not (Fifo.empty nic'.control) then send_first nic' now nic'.control else return nic')

unfoldable pub cant_send : EqdsNic → ℕ → ℕ → Outcome NicEffect EqdsNic
unfolding waiting pass_turn send_first
cant_send nic src now =
    if not (waiting nic)
    then return nic
    else (if ltb 0 nic.num_queued_srcs
        then pass_turn nic src now
        else send_first nic now nic.control)

-- The counter of the turns of sources and control packets.
unfoldable pub next_crt : EqdsNic → ℕ
next_crt nic = if leb (nic.ratio_control + nic.ratio_data) (nic.crt + 1) then 0 else nic.crt + 1

-- `doNextEvent` behind its assertions.
unfoldable pub take_turns : EqdsNic → ℕ → Outcome NicEffect EqdsNic
unfolding next_crt let_send send_first
take_turns nic now =
    let counted = record nic { crt = next_crt nic } in
    if ltb 0 nic.num_queued_srcs && not (Fifo.empty nic.control)
    then (if ltb (next_crt nic) nic.ratio_data
        then let_send counted nic.active_srcs
        else send_first counted now nic.control)
    else (if ltb 0 nic.num_queued_srcs
        then let_send nic nic.active_srcs
        else send_first nic now nic.control)

unfoldable pub do_next_event : EqdsNic → ℕ → Outcome NicEffect EqdsNic
unfolding waiting take_turns
do_next_event nic now = do
  assert (now == nic.send_end_time)
  assert (waiting nic)
  take_turns nic now

unfoldable pub send_control_packet : EqdsNic → Packet → ℕ → Outcome NicEffect EqdsNic
unfolding do_next_event
send_control_packet nic pkt now =
    let queued = record nic {
      control_size = add64 nic.control_size pkt.size;
      control = Fifo.push nic.control pkt;
    } in
    if leb now nic.send_end_time
    then (if nic.num_queued_srcs == 0 && length queued.control == 1
        then (do emit (schedules nic.send_end_time); return queued)
        else return queued)
    else do_next_event (record queued { send_end_time = now }) now
