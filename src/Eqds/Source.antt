-- ===== src/Eqds/Source.antt =====
-- The part of `EqdsSrc` of sim/eqds.h and sim/eqds.cpp that keeps what is on its way: the records of
-- packets sent, the queue for retransmission, and the timer. Times are taken not to wrap.
pub mod Laws
pub mod Acked
pub mod Ascending
pub mod Settled
use frontier_htsim.Prelude.{
  ℕ, ◌+◌, ◌-◌, Bool, true, false, not, ◌||◌, List, [], ◌∷◌, Option, none, some, ltb, leb, ◌==◌,
  if◌then◌else◌, Outcome, ◌>>=◌, ◌>>◌, emit, assert, return, or_abort,
}
use frontier_htsim.Eqds.Packets.{EqdsAckPacket}
use frontier_htsim.Eqds.Acks.{sacked}

pub record SendRecord : Type 0 where
  pub pkt_size : ℕ
  pub send_time : ℕ

-- A map is the list of its entries in order of their keys. `endtime` is the event list's, 0 for none.
pub record EqdsSrc : Type 0 where
  pub tx_bitmap : List (ℕ × SendRecord)
  pub send_times : List (ℕ × ℕ)
  pub rtx_queue : List (ℕ × ℕ)
  pub in_flight : ℕ
  pub rto : ℕ
  pub rtx_timeout_pending : Bool
  pub rtx_timeout : ℕ
  pub rto_send_time : ℕ
  pub endtime : ℕ

-- `sourceIsPendingGetHandle` with a handle to keep, and `cancelPendingSourceByHandle` of that handle.
pub data TimerEffect : Type 0 where
  starts_timer : ℕ → TimerEffect
  cancels_timer : TimerEffect

module _ {A : Type 0} where
  unfoldable pub find : List (ℕ × A) → ℕ → Option A
  find [] key = none
  find ((k, a) ∷ rest) key = if k == key then some a else find rest key

  unfoldable pub erase : List (ℕ × A) → ℕ → List (ℕ × A)
  erase [] key = []
  erase ((k, a) ∷ rest) key = if k == key then rest else (k, a) ∷ erase rest key

  -- Nothing happens if the key is there.
  unfoldable pub emplace : ℕ → A → List (ℕ × A) → List (ℕ × A)
  emplace key a [] = (key, a) ∷ []
  emplace key a ((k, b) ∷ rest) =
      if k == key
      then (k, b) ∷ rest
      else (if ltb key k then (key, a) ∷ (k, b) ∷ rest else (k, b) ∷ emplace key a rest)

  -- What the loops of `handleCumulativeAck` leave of a map.
  unfoldable pub drop_below : ℕ → List (ℕ × A) → List (ℕ × A)
  drop_below cum_ack [] = []
  drop_below cum_ack ((seqno, a) ∷ rest) =
      if ltb seqno cum_ack then drop_below cum_ack rest else (seqno, a) ∷ rest

-- `startRTO` where no timer runs; none is started if the time is beyond the end of the simulation.
unfoldable pub begin_rto : EqdsSrc → ℕ → ℕ → Outcome TimerEffect EqdsSrc
begin_rto s send_time now =
    let timeout = if ltb (send_time + s.rto) now then now else send_time + s.rto in
    let s' = record s { rtx_timeout = timeout; rto_send_time = send_time } in
    if s.endtime == 0 || ltb timeout s.endtime
    then (do emit (starts_timer timeout); return (record s' { rtx_timeout_pending = true }))
    else return (record s' { rtx_timeout_pending = false })

unfoldable pub clear_rto : EqdsSrc → EqdsSrc
clear_rto s = record s { rtx_timeout_pending = false }

unfoldable pub cancel_rto : EqdsSrc → Outcome TimerEffect EqdsSrc
unfolding clear_rto
cancel_rto s =
    if s.rtx_timeout_pending then (do emit cancels_timer; return (clear_rto s)) else return s

unfoldable pub start_rto : EqdsSrc → ℕ → ℕ → Outcome TimerEffect EqdsSrc
unfolding begin_rto cancel_rto
start_rto s send_time now =
    if not s.rtx_timeout_pending
    then begin_rto s send_time now
    else (if ltb (send_time + s.rto) s.rtx_timeout
        then (do s' ← cancel_rto s; begin_rto s' send_time now)
        else return s)

-- The timer for the earliest of the packets that are waited for.
unfoldable pub start_earliest : EqdsSrc → ℕ → List (ℕ × ℕ) → Outcome TimerEffect EqdsSrc
unfolding start_rto
start_earliest s now [] = return s
start_earliest s now ((send_time, seqno) ∷ rest) = start_rto s send_time now

unfoldable pub recalculate_rto : EqdsSrc → ℕ → Outcome TimerEffect EqdsSrc
unfolding cancel_rto start_earliest
recalculate_rto s now = do s' ← cancel_rto s; start_earliest s' now s'.send_times

unfoldable pub create_send_record : EqdsSrc → ℕ → ℕ → ℕ → Outcome TimerEffect EqdsSrc
unfolding find emplace
create_send_record s seqno full_pkt_size now = do
  or_abort (elim (find s.tx_bitmap seqno) [ none ↦ some tt | some r ↦ none ])
  return (record s {
    tx_bitmap = emplace seqno (record { pkt_size = full_pkt_size; send_time = now }) s.tx_bitmap;
    send_times = emplace now seqno s.send_times;
  })

-- A packet that is acknowledged is no longer in flight; `tx` are the records without it.
unfoldable pub forget :
    EqdsSrc → SendRecord → List (ℕ × SendRecord) → ℕ → Outcome TimerEffect EqdsSrc
unfolding erase recalculate_rto
forget s r tx now = do
  assert (leb r.pkt_size s.in_flight)
  let s' = record s {
    in_flight = s.in_flight - r.pkt_size;
    tx_bitmap = tx;
    send_times = erase s.send_times r.send_time;
  }
  if r.send_time == s'.rto_send_time then recalculate_rto s' now else return s'

unfoldable pub forget_found : EqdsSrc → ℕ → ℕ → Option SendRecord → Outcome TimerEffect EqdsSrc
unfolding erase forget
forget_found s ackno now none = return s
forget_found s ackno now (some r) = forget s r (erase s.tx_bitmap ackno) now

unfoldable pub handle_ackno : EqdsSrc → ℕ → ℕ → Outcome TimerEffect EqdsSrc
unfolding find forget_found
handle_ackno s ackno now = forget_found s ackno now (find s.tx_bitmap ackno)

-- The second loop of `handleCumulativeAck`, with the records that are left.
unfoldable pub cum_loop : EqdsSrc → ℕ → ℕ → List (ℕ × SendRecord) → Outcome TimerEffect EqdsSrc
unfolding forget
cum_loop s cum_ack now [] = return s
cum_loop s cum_ack now ((seqno, r) ∷ rest) =
    if leb cum_ack seqno
    then return s
    else (do s' ← forget s r rest now; cum_loop s' cum_ack now rest)

unfoldable pub handle_cumulative_ack : EqdsSrc → ℕ → ℕ → Outcome TimerEffect EqdsSrc
unfolding drop_below cum_loop
handle_cumulative_ack s cum_ack now =
    cum_loop (record s { rtx_queue = drop_below cum_ack s.rtx_queue }) cum_ack now s.tx_bitmap

unfoldable pub handle_acknos : EqdsSrc → ℕ → List ℕ → Outcome TimerEffect EqdsSrc
unfolding handle_ackno
handle_acknos s now [] = return s
handle_acknos s now (n ∷ ns) = do s' ← handle_ackno s n now; handle_acknos s' now ns

-- The first part of `processAck`: the cumulative number and the bitmap.
unfoldable pub process_acknos : EqdsSrc → EqdsAckPacket → ℕ → Outcome TimerEffect EqdsSrc
unfolding handle_cumulative_ack handle_acknos sacked
process_acknos s pkt now = do
  s' ← handle_cumulative_ack s pkt.cumulative_ack now
  ns ← or_abort (sacked 64 pkt.sack_bitmap pkt.ref_ack)
  handle_acknos s' now ns
