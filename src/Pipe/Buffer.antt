-- ===== src/Pipe/Buffer.antt =====
-- The pipe as a delay line: what is in flight, read off its circular buffer.
use frontier_htsim.Prelude.{
  ℕ, ◌+◌, ◌-◌, ◌%◌, get_elem?, false, ◌≡◌, sym, ap, ◌∙◌, subst, List, [], ◌∷◌, some, arith,
  if◌then◌else◌, ◌==◌, add64, Ensures,
}
use frontier_htsim.Fifo
use frontier_htsim.Network.{Packet}
use frontier_htsim.CircularBuffer
use frontier_htsim.CircularBuffer.{CircularBuffer}
use frontier_htsim.CircularBuffer.Window.{IsValid, contents}
use frontier_htsim.CircularBuffer.Push.{push_lem}
use frontier_htsim.CircularBuffer.Pop.{
  observe-pop, pop-IsValid, next_to_pop-contents, empty-contents,
}
use frontier_htsim.Pipe.{
  Pipe, PktRecord, PipeEffect, blank, insert, receive_packet, do_next_event, pends_rel, pends_at,
  forwards,
}

abbrev pub as_buffer : Pipe → CircularBuffer PktRecord
as_buffer p = record {
  queue = p.inflight_v;
  next_push = p.next_insert;
  next_pop = p.next_pop;
  count = p.count;
  size = p.size;
}

-- The copied code does what the original does.
as_buffer-insert :
    (p : Pipe) (r : PktRecord) → as_buffer (insert p r) ≡ CircularBuffer.push blank (as_buffer p) r
unfolding insert CircularBuffer.push CircularBuffer.grow CircularBuffer.store
as_buffer-insert p r = ground arith

abbrev pub inflight : Pipe → List PktRecord
inflight p = contents blank (as_buffer p)

-- The pipe after a packet has left it.
abbrev popped : Pipe → Pipe
popped p = record p { next_pop = (p.next_pop + 1) % p.size; count = p.count - 1 }

head_lem :
    (p : Pipe) (r : PktRecord) (rest : List PktRecord)
    → IsValid (as_buffer p)
    → inflight p ≡ r ∷ rest
    → (get_elem? p.inflight_v p.next_pop ≡ some r)
      × ((p.count == 0) ≡ false)
      × (CircularBuffer.pop (as_buffer p) ≡ some (r, as_buffer (popped p)))
unfolding CircularBuffer.next_to_pop CircularBuffer.empty CircularBuffer.pop
head_lem p r rest v e =
    ground (arith, next_to_pop-contents blank (as_buffer p) v, empty-contents blank (as_buffer p) v)

rest_lem :
    (p : Pipe) (r : PktRecord) (rest : List PktRecord)
    → IsValid (as_buffer p)
    → inflight p ≡ r ∷ rest
    → IsValid (as_buffer (popped p)) × (inflight (popped p) ≡ rest)
rest_lem p r rest v e =
    let (h, z, q) = head_lem p r rest v e in
    (pop-IsValid blank (as_buffer p) v q, cc (observe-pop blank (as_buffer p) v))

-- The event that the pipe schedules for what is next to leave.
abbrev pub next_pending : List PktRecord → List PipeEffect
next_pending [] = []
next_pending (r ∷ rs) = pends_at r.time ∷ []

-- In a pipe whose indices fit its buffer, and with packets in flight, an event sends the one that
-- has been in flight longest and schedules the next event for the time that is recorded with the
-- packet behind it, if there is one; and the indices fit the buffer again.
pub do_next_event-inflight :
    (p : Pipe) (r : PktRecord) (rest : List PktRecord) (pkt : Packet)
    → IsValid (as_buffer p)
    → inflight p ≡ r ∷ rest
    → r.pkt ≡ some pkt
    → Ensures
        (λ p' es.
          IsValid (as_buffer p')
          × (inflight p' ≡ rest)
          × (p'.delay ≡ p.delay)
          × (es ≡ forwards pkt ∷ next_pending rest))
        (do_next_event p)
unfolding do_next_event CircularBuffer.empty
do_next_event-inflight p r [] pkt v e h = ground (
  arith,
  head_lem p r [] v e,
  rest_lem p r [] v e,
  empty-contents blank (as_buffer (popped p)) (rest_lem p r [] v e).0,
)
do_next_event-inflight p r (r' ∷ rest) pkt v e h = ground (
  arith,
  head_lem p r (r' ∷ rest) v e,
  rest_lem p r (r' ∷ rest) v e,
  empty-contents blank (as_buffer (popped p)) (rest_lem p r (r' ∷ rest) v e).0,
  head_lem (popped p) r' rest (rest_lem p r (r' ∷ rest) v e).0 (rest_lem p r (r' ∷ rest) v e).1,
)

insert_lem :
    (p : Pipe) (r : PktRecord)
    → IsValid (as_buffer p)
    → IsValid (as_buffer (insert p r)) × (inflight (insert p r) ≡ Fifo.push (inflight p) r)
insert_lem p r v =
    let (v', e) = push_lem blank (as_buffer p) r v in
    (subst IsValid (sym (as_buffer-insert p r)) v', ap (contents blank) (as_buffer-insert p r) ∙ e)

delay-insert : (p : Pipe) (r : PktRecord) → (insert p r).delay ≡ p.delay
unfolding insert
delay-insert p r = ground arith

-- In a pipe whose indices fit its buffer, a packet that arrives is put behind those in flight, to
-- leave when the delay has passed; an event is scheduled for it exactly if none was in flight; and
-- the indices fit the buffer again.
pub receive_packet-inflight :
    (p : Pipe) (now : ℕ) (pkt : Packet)
    → IsValid (as_buffer p)
    → Ensures
        (λ p' es.
          IsValid (as_buffer p')
          × (inflight p'
              ≡ Fifo.push (inflight p) (record { time = add64 now p.delay; pkt = some pkt }))
          × (p'.delay ≡ p.delay)
          × (es ≡ (if Fifo.empty (inflight p) then pends_rel p.delay ∷ [] else [])))
        (receive_packet p now pkt)
unfolding receive_packet CircularBuffer.empty
receive_packet-inflight p now pkt v = ground (
  arith,
  empty-contents blank (as_buffer p) v,
  insert_lem p (record { time = add64 now p.delay; pkt = some pkt }) v,
  delay-insert p (record { time = add64 now p.delay; pkt = some pkt }),
)
