-- ===== src/Pipe.antt =====
-- sim/pipe.h and sim/pipe.cpp: a link that delays every packet by the same
-- time. Its circular buffer is a copy of the code of sim/circular_buffer.h.
pub mod Buffer
pub mod Callback
use frontier_htsim.Prelude.{
  ℕ, zero, suc, ◌+◌, ◌-◌, ◌*◌, ◌%◌, ◌^◌, Bool, List, [], ◌∷◌, Option, none, some, get_elem?, get_or,
  set, ltb, ◌==◌, if◌then◌else◌, add64, Outcome, done, aborted, ◌>>=◌, ◌>>◌, emit, return, or_abort,
}
use frontier_htsim.Network.{Packet}
use frontier_htsim.CircularBuffer.{resize, copy_up}

-- `pktrecord_t`; `none` is a packet pointer that was never set.
pub record PktRecord : Type 0 where
  pub time : ℕ
  pub pkt : Option Packet

abbrev pub blank : PktRecord
blank = record { time = 0; pkt = none }

pub record Pipe : Type 0 where
  pub delay : ℕ
  pub inflight_v : List PktRecord
  pub count : ℕ
  pub next_insert : ℕ
  pub next_pop : ℕ
  pub size : ℕ

-- `pends_rel` and `pends_at` are `sourceIsPendingRel` and `sourceIsPending`; `forwards` is `sendOn`.
pub data PipeEffect : Type 0 where
  pends_rel pends_at : ℕ → PipeEffect
  forwards : Packet → PipeEffect

unfoldable pub init : ℕ → Pipe
unfolding resize
init delay = record {
  delay = delay;
  inflight_v = resize blank 16 [];
  count = 0;
  next_insert = 0;
  next_pop = 0;
  size = 16;
}

-- The branch of `receivePacket` for a full buffer.
unfoldable pub grow : Pipe → Pipe
grow p =
    if ltb next_insert next_pop
    then record p {
      inflight_v = copy_up blank size next_insert resized;
      next_insert = next_insert + size;
      size = size + size;
    }
    else record p { inflight_v = resized; size = size + size }
  where
    open p use {inflight_v, next_insert, next_pop, size}

    resized : List PktRecord
    resized = resize blank (size * 2) inflight_v

unfoldable pub store : Pipe → PktRecord → Pipe
store p r = record p {
  inflight_v = set p.inflight_v p.next_insert r;
  next_insert = (p.next_insert + 1) % p.size;
}

-- The buffer's part of `receivePacket`.
unfoldable pub insert : Pipe → PktRecord → Pipe
unfolding grow store
insert p r =
    let counted = record p { count = p.count + 1 } in
    store (if counted.count == counted.size then grow counted else counted) r

unfoldable pub receive_packet : Pipe → ℕ → Packet → Outcome PipeEffect Pipe
receive_packet p now pkt =
    let p' = insert p (record { time = add64 now p.delay; pkt = some pkt }) in
    if p.count == 0 then (do emit (pends_rel p.delay); return p') else return p'

-- Nothing is done where no packet is in flight.
unfoldable pub do_next_event : Pipe → Outcome PipeEffect Pipe
do_next_event p = if p.count == 0 then return p else (do
  r ← or_abort (get_elem? p.inflight_v p.next_pop)
  pkt ← or_abort r.pkt
  let p' = record p { next_pop = (p.next_pop + 1) % p.size; count = p.count - 1 }
  emit (forwards pkt)
  if ltb 0 p'.count
      then (do
        next ← or_abort (get_elem? p'.inflight_v p'.next_pop)
        emit (pends_at next.time)
        return p')
      else return p')
