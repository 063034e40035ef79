-- ===== src/Tests/Samples.antt =====
-- Packets and ports that the examples share.
use frontier_htsim.Prelude.{ℕ, true, false, [], none, some}
use frontier_htsim.Network.{Packet, PacketType, ndp, eth_pause, undirected, prio_lo, prio_hi}
use frontier_htsim.Queues.Utilization.{BaseQueue}

-- 10 Gb/s, a window of 30 us.
abbrev pub link : BaseQueue
link = record {
  ps_per_byte = 800;
  window = 30000000;
  update_period = 100000;
  busystart = [];
  busyend = [];
  busy = 0;
  last_update_utilization = 0;
  last_utilization = 0;
}

abbrev pub packet : PacketType → ℕ → ℕ → Packet
packet type size sleep_time = record {
  type = type;
  size = size;
  oldsize = size;
  is_header = false;
  bounced = false;
  flags = 0;
  direction = undirected;
  route = none;
  nexthop = 0;
  oldnexthop = 0;
  next_routed_hop = some 7;
  id = 1;
  flow_id = 1;
  ingressqueue = none;
  priority = prio_lo;
  trimmed_size = some 64;
  sleep_time = sleep_time;
  sender_id = 0;
  int_info = [];
}

abbrev pub whole : Packet
whole = packet ndp 1500 0

abbrev pub urgent : Packet
urgent = record (packet ndp 64 0) { priority = prio_hi; is_header = true }

abbrev pub stop : Packet
stop = packet eth_pause 64 1000

abbrev pub go : Packet
go = packet eth_pause 64 0
