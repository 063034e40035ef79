-- ===== src/Network.antt =====
-- sim/network.h and sim/network.cpp: packets, and how they move along their routes. A sink, a flow
-- and a queue are named by numbers. Logging is left out.
pub mod Hops
mod Tests
use frontier_htsim.Prelude.{
  ℕ, zero, suc, ◌+◌, ◌-◌, ◌%◌, ◌^◌, Bool, true, false, not, ◌&&◌, ◌||◌, List, [], ◌∷◌, Option, none,
  some, length, get_elem?, ltb, ◌==◌, if◌then◌else◌, Outcome, done, aborted, ◌>>=◌, ◌>>◌, emit,
  assert, return, or_abort,
}

-- `packet_type`
pub data PacketType : Type 0 where
  ip tcp tcpack tcpnack swift swiftack strack strackack : PacketType
  ndp ndpack ndpnack ndppull ndprts : PacketType
  ndplite ndpliteack ndplitepull ndpliterts : PacketType
  eth_pause tofino_trim : PacketType
  roce roceack rocenack : PacketType
  hpcc hpccack hpccnack : PacketType
  eqdsdata eqdspull eqdsack eqdsnack eqdsrts : PacketType

-- The place of a constructor in the enumeration.
unfoldable pub ordinal : PacketType → ℕ
ordinal ip = 0
ordinal tcp = 1
ordinal tcpack = 2
ordinal tcpnack = 3
ordinal swift = 4
ordinal swiftack = 5
ordinal strack = 6
ordinal strackack = 7
ordinal ndp = 8
ordinal ndpack = 9
ordinal ndpnack = 10
ordinal ndppull = 11
ordinal ndprts = 12
ordinal ndplite = 13
ordinal ndpliteack = 14
ordinal ndplitepull = 15
ordinal ndpliterts = 16
ordinal eth_pause = 17
ordinal tofino_trim = 18
ordinal roce = 19
ordinal roceack = 20
ordinal rocenack = 21
ordinal hpcc = 22
ordinal hpccack = 23
ordinal hpccnack = 24
ordinal eqdsdata = 25
ordinal eqdspull = 26
ordinal eqdsack = 27
ordinal eqdsnack = 28
ordinal eqdsrts = 29

unfoldable pub has_type : PacketType → PacketType → Bool
unfolding ordinal
has_type t u = ordinal t == ordinal u

pub data PktPriority : Type 0 where
  prio_lo prio_mid prio_hi prio_none : PktPriority

pub data PacketDirection : Type 0 where
  undirected up down : PacketDirection

-- A `Route` with what the model needs of the route that `reverse()` returns, if there is one.
pub record Route : Type 0 where
  pub sinks : List ℕ
  pub reverse : Option (List ℕ)

-- `IntEntry` of sim/hpccpacket.h: what one hop tells an HPCC sender.
pub record IntEntry : Type 0 where
  pub queuesize : ℕ
  pub ts : ℕ
  pub switch_id : ℕ
  pub switch_type : ℕ
  pub txbytes : ℕ
  pub linkrate : ℕ

-- `sleep_time` and `sender_id` are fields of `EthPausePacket`; `trimmed_size` is the size that the
-- `strip_payload` of the packet's class sets, if it sets one; `int_info` is an `HPCCPacket`'s
-- `_int_info` up to `_int_hop`.
pub record Packet : Type 0 where
  pub type : PacketType
  pub size : ℕ
  pub oldsize : ℕ
  pub is_header : Bool
  pub bounced : Bool
  pub flags : ℕ
  pub direction : PacketDirection
  pub route : Option Route
  pub nexthop : ℕ
  pub oldnexthop : ℕ
  pub next_routed_hop : Option ℕ
  pub id : ℕ
  pub flow_id : ℕ
  pub ingressqueue : Option ℕ
  pub priority : PktPriority
  pub trimmed_size : Option ℕ
  pub sleep_time : ℕ
  pub sender_id : ℕ
  pub int_info : List IntEntry

-- What a packet's step does to another object: `receivePacket(*this)` and
-- `receivePacket(*this, crtSink)`.
pub data Delivery : Type 0 where
  receives : ℕ → Packet → Delivery
  receives_from : ℕ → Packet → ℕ → Delivery

-- `_size` and `_oldsize` are 16 bits wide.
unfoldable pub set_attrs : Packet → ℕ → ℕ → ℕ → Packet
set_attrs p flow pkt_size id = record p {
  flow_id = flow;
  size = pkt_size % 2 ^ 16;
  oldsize = pkt_size % 2 ^ 16;
  id = id;
  nexthop = 0;
  oldnexthop = 0;
  route = none;
  is_header = false;
  flags = 0;
  next_routed_hop = none;
}

unfoldable pub set_route_flow : Packet → ℕ → Route → ℕ → ℕ → Packet
set_route_flow p flow route pkt_size id = record p {
  flow_id = flow;
  size = pkt_size % 2 ^ 16;
  oldsize = pkt_size % 2 ^ 16;
  id = id;
  nexthop = 0;
  oldnexthop = 0;
  route = some route;
  is_header = false;
  flags = 0;
}

unfoldable pub set_route : Packet → Option Route → Packet
set_route p route = record p { route = route; nexthop = 0 }

-- The lines that `sendOn` and `sendOn2` share: the next sink, and the packet with its hop counted.
-- `Route::at` throws out of range.
unfoldable pub next_sink : Packet → Outcome Delivery (ℕ × Packet)
next_sink p = elim p.route [
  | some r ↦
      (if p.bounced
        then (do
          assert (ltb 0 p.nexthop)
          assert (ltb p.nexthop (length r.sinks))
          reverse ← or_abort r.reverse
          assert (ltb p.nexthop (length reverse))
          sink ← or_abort (get_elem? reverse p.nexthop)
          return (sink, hopped))
        else (do
          assert (ltb p.nexthop (length r.sinks))
          sink ← or_abort (get_elem? r.sinks p.nexthop)
          return (sink, hopped)))
  | none ↦ (do sink ← or_abort p.next_routed_hop; return (sink, p))
]
  where
    hopped : Packet
    hopped = record p { nexthop = (p.nexthop + 1) % 2 ^ 32 }

unfoldable pub send_on : Packet → Outcome Delivery Packet
unfolding next_sink
send_on p = do (sink, p') ← next_sink p; emit (receives sink p'); return p'

unfoldable pub send_on2 : Packet → ℕ → Outcome Delivery Packet
unfolding next_sink
send_on2 p crt_sink = do (sink, p') ← next_sink p; emit (receives_from sink p' crt_sink); return p'

-- `_nexthop = _route->size() - _nexthop` in 32 bits
unfoldable pub bounce : Packet → Outcome Delivery Packet
bounce p = do
  assert (not p.bounced)
  r ← or_abort p.route
  return (record p {
    bounced = true;
    is_header = true;
    nexthop = (length r.sinks + 2 ^ 32 - p.nexthop) % 2 ^ 32;
  })

unfoldable pub unbounce : Packet → ℕ → Outcome Delivery Packet
unbounce p pktsize = do
  assert p.bounced
  r ← or_abort p.route
  return (record p { bounced = false; is_header = false; size = pktsize; nexthop = 0 })

-- `Packet::strip_payload`, and what its overriding in a class adds: a smaller size.
unfoldable pub strip_payload : Packet → Option Packet
strip_payload p = if p.is_header then none else (elim p.trimmed_size [
  | none ↦ some (record p { is_header = true })
  | some n ↦ some (record p { is_header = true; size = n })
])

-- `go_up`, `go_down` and `set_direction`; `none` is `abort`.
unfoldable pub go_up : PacketDirection → Option PacketDirection
go_up undirected = some up
go_up up = some up
go_up down = none

unfoldable pub go_down : PacketDirection → Option PacketDirection
go_down undirected = none
go_down up = some down
go_down down = some down

unfoldable pub set_direction : PacketDirection → PacketDirection → Option PacketDirection
set_direction undirected d = some d
set_direction up undirected = none
set_direction up up = some up
set_direction up down = some down
set_direction down undirected = none
set_direction down up = none
set_direction down down = some down

-- `set_flags(flags() | ECN_CE)`: the lowest bit.
unfoldable pub mark_ce : Packet → Packet
mark_ce p = record p { flags = p.flags + (1 - p.flags % 2) }

unfoldable pub has_ce : Packet → Bool
has_ce p = p.flags % 2 == 1
