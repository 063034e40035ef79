-- ===== src/Pipe/Callback.antt =====
-- sim/callback_pipe.h and sim/callback_pipe.cpp: a pipe that hands its packets to one sink, or back to
-- the hop that each came from.
use frontier_htsim.Prelude.{
  ℕ, ◌+◌, ◌-◌, ◌%◌, ◌≡◌, List, [], ◌∷◌, Option, none, some, get_elem?, ltb, ◌==◌, if◌then◌else◌,
  arith, Outcome, done, aborted, ◌>>=◌, ◌>>◌, emit, return, or_abort,
}
use frontier_htsim.Network.{Packet}
use frontier_htsim.Pipe
use frontier_htsim.Pipe.{Pipe, PktRecord, PipeEffect, pends_rel, pends_at, forwards}

-- `pends` is `sourceIsPending`, and `calls` a sink's `receivePacket`.
pub data CallbackEffect : Type 0 where
  pends : ℕ → CallbackEffect
  calls : ℕ → Packet → CallbackEffect

-- `Packet::currentHop`; `none` is a null pointer, or a hop that the route does not have.
unfoldable pub current_hop : Packet → Option ℕ
current_hop p =
    if ltb 0 p.nexthop
    then (elim p.route [ none ↦ none | some r ↦ get_elem? r.sinks (p.nexthop - 1) ])
    else none

-- The sink that is called for a packet: `_callback` if it is set.
unfoldable pub receiver : Option ℕ → Packet → Option ℕ
receiver none pkt = current_hop pkt
receiver (some sink) pkt = some sink

unfoldable pub do_next_event : Option ℕ → Pipe → Outcome CallbackEffect Pipe
do_next_event callback p = if p.count == 0 then return p else (do
  r ← or_abort (get_elem? p.inflight_v p.next_pop)
  pkt ← or_abort r.pkt
  let p' = record p { next_pop = (p.next_pop + 1) % p.size; count = p.count - 1 }
  sink ← or_abort (receiver callback pkt)
  emit (calls sink pkt)
  if ltb 0 p'.count
      then (do
        next ← or_abort (get_elem? p'.inflight_v p'.next_pop)
        emit (pends next.time)
        return p')
      else return p')

-- What the callback pipe does in place of each thing that a pipe does.
abbrev pub in_place : Option ℕ → Pipe → List PipeEffect → Outcome CallbackEffect Pipe
in_place callback p [] = return p
in_place callback p (pends_rel t ∷ es) = aborted
in_place callback p (pends_at t ∷ es) = do emit (pends t); in_place callback p es
in_place callback p (forwards pkt ∷ es) = do
  sink ← or_abort (receiver callback pkt)
  emit (calls sink pkt)
  in_place callback p es

abbrev pub redirect : Option ℕ → Outcome PipeEffect Pipe → Outcome CallbackEffect Pipe
redirect callback aborted = aborted
redirect callback (done p es) = in_place callback p es

-- An event of a callback pipe does to the pipe what an event of a pipe does, and to other objects
-- the same in the same order, but that a packet is handed to the callback instead of being sent on,
-- or without a callback to the hop it came from; and it aborts exactly where that pipe aborts or
-- there is no such hop.
pub do_next_event-redirect :
    (callback : Option ℕ) (p : Pipe)
    → do_next_event callback p ≡ redirect callback (Pipe.do_next_event p)
unfolding do_next_event Pipe.do_next_event
do_next_event-redirect callback p = ground arith
