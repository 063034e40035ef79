-- ===== src/Tcp/Source.antt =====
-- `TcpSrc` of sim/tcp.h and sim/tcp.cpp: its state and how it sends. It is not part of a multipath
-- connection (`_mSrc` is null), has no logger, and none of the options of sim/tcp.h is compiled in.
-- `Ack` handles acknowledgements and `Timer` the retransmission timer.
pub mod Ack
pub mod Timer
pub mod Window
pub mod Steady
pub mod Offset
pub mod Kept
pub mod Recovery
use frontier_htsim.Prelude.{
  ℕ, zero, suc, ◌+◌, ◌-◌, ◌*◌, ◌/◌, ◌%◌, ◌^◌, min, max, Bool, true, false, not, ◌&&◌, Option, none,
  some, List, [], ◌∷◌, ltb, leb, ◌==◌, if◌then◌else◌, add64, sub64, mul64, Outcome, done, return,
  assert, ◌>>◌,
}

pub record TcpSrc : Type 0 where
  pub mss : ℕ
  pub maxcwnd : ℕ
  pub sawtooth : ℕ
  pub rtt_avg : ℕ
  pub rtt_cum : ℕ
  pub base_rtt : ℕ
  pub flow_size : ℕ
  pub highest_sent : ℕ
  pub packets_sent : ℕ
  pub app_limited : Option ℕ
  pub established : Bool
  pub effcwnd : ℕ
  pub cwnd : ℕ
  pub ssthresh : ℕ
  pub last_acked : ℕ
  pub last_ping : ℕ
  pub dupacks : ℕ
  pub rtt : ℕ
  pub rto : ℕ
  pub mdev : ℕ
  pub recoverq : ℕ
  pub in_fast_recovery : Bool
  pub drops : ℕ
  pub unacked : ℕ
  pub dst : Option ℕ
  pub route : ℕ
  pub old_route : Option ℕ
  pub last_packet_with_old_route : ℕ
  pub rtx_timeout_pending : Bool
  pub rto_timeout : ℕ

-- A `TcpPacket` as `newpkt` and `new_syn_pkt` make it; a SYN is given no time.
pub record TcpPacket : Type 0 where
  pub route : ℕ
  pub dst : Option ℕ
  pub seqno : ℕ
  pub size : ℕ
  pub id : ℕ
  pub syn : Bool
  pub ts : Option ℕ

pub data Effect : Type 0 where
  sent : TcpPacket → Effect
  pending : ℕ → Effect
  pending_rel : ℕ → Effect
  sink_connected : ℕ → Effect

-- `timeInf`, and a time in milliseconds in picoseconds.
abbrev pub time_inf : ℕ
time_inf = 0

abbrev pub time_from_ms : ℕ → ℕ
time_from_ms t = t * 10 ^ 9

-- The constructor, with `Packet::data_packet_size()` for `mss`; `route` and `unacked`, which it does
-- not set, are arguments.
unfoldable pub init : ℕ → ℕ → ℕ → TcpSrc
init mss route unacked = record {
  mss = mss;
  maxcwnd = 2 ^ 32 - 1;
  sawtooth = 0;
  rtt_avg = time_from_ms 0;
  rtt_cum = time_from_ms 0;
  base_rtt = time_inf;
  flow_size = 2 ^ 63;
  highest_sent = 0;
  packets_sent = 0;
  app_limited = none;
  established = false;
  effcwnd = 0;
  cwnd = 10 * mss;
  ssthresh = 100 * mss;
  last_acked = 0;
  last_ping = time_inf;
  dupacks = 0;
  rtt = 0;
  rto = time_from_ms 3000;
  mdev = 0;
  recoverq = 0;
  in_fast_recovery = false;
  drops = 0;
  unacked = unacked;
  dst = none;
  route = route;
  old_route = none;
  last_packet_with_old_route = 0;
  rtx_timeout_pending = false;
  rto_timeout = time_inf;
}

unfoldable pub set_flowsize : TcpSrc → ℕ → TcpSrc
set_flowsize s bytes = record s { flow_size = add64 bytes s.mss }

unfoldable pub set_ssthresh : TcpSrc → ℕ → TcpSrc
set_ssthresh s bytes = record s { ssthresh = bytes % 2 ^ 32 }

unfoldable pub set_cwnd : TcpSrc → ℕ → TcpSrc
set_cwnd s bytes = record s { cwnd = bytes % 2 ^ 32 }

unfoldable pub set_dst : TcpSrc → Option ℕ → TcpSrc
set_dst s dst = record s { dst = dst }

-- RFC 2988, 5.1: the timer starts when it is not running.
unfoldable pub start_timer : ℕ → TcpSrc → TcpSrc
start_timer now s = record s {
  rto_timeout = if s.rto_timeout == time_inf then add64 now s.rto else s.rto_timeout;
}

unfoldable pub syn_packet : TcpSrc → TcpPacket
syn_packet s = record {
  route = s.route;
  dst = s.dst;
  seqno = 1;
  size = 1;
  id = 1;
  syn = true;
  ts = none;
}

-- A packet of one segment whose first byte is `seqno`.
unfoldable pub data_packet : ℕ → TcpSrc → ℕ → TcpPacket
data_packet now s seqno = record {
  route = s.route;
  dst = s.dst;
  seqno = seqno;
  size = s.mss;
  id = sub64 (add64 seqno s.mss) 1 % 2 ^ 32;
  syn = false;
  ts = some now;
}

-- The condition of the loop of `send_packets`, with the window `c`.
unfoldable pub can_send : ℕ → TcpSrc → Bool
can_send c s =
    leb (add64 s.highest_sent s.mss) (add64 s.last_acked c)
    && leb s.highest_sent (add64 s.flow_size 1)

-- The body of the loop.
unfoldable pub send_one : ℕ → TcpSrc → TcpSrc
unfolding start_timer
send_one now s = start_timer now record s {
  highest_sent = add64 s.highest_sent s.mss;
  packets_sent = add64 s.packets_sent s.mss;
}

unfoldable pub send_loop : ℕ → ℕ → ℕ → TcpSrc → TcpSrc × List Effect
send_loop zero now c s = (s, [])
send_loop (suc fuel) now c s = elim (can_send c s) [
  | true ↦
      (let (s', es) = send_loop fuel now c (send_one now s) in
        (s', sent (data_packet now s (add64 s.highest_sent 1)) ∷ es))
  | false ↦ (s, [])
]

-- The congestion window, cut to what the application supplies in a round trip.
unfoldable pub cut : Option ℕ → TcpSrc → ℕ
cut none s = s.cwnd
cut (some limit) s = if ltb 0 s.rtt then min s.cwnd (mul64 limit s.rtt / 1000000000) else s.cwnd

unfoldable pub window : TcpSrc → ℕ
unfolding cut
window s = cut s.app_limited s

-- `send_packets`; the loop gets more fuel than the window has bytes.
unfoldable pub send_packets : ℕ → TcpSrc → Outcome Effect TcpSrc
unfolding start_timer syn_packet send_loop window
send_packets now s =
    if s.established
    then (let (s', es) = send_loop (suc (window s)) now (window s) s in done s' es)
    else done (start_timer now (record s { highest_sent = 1 })) (sent (syn_packet s) ∷ [])

-- `_app_limited==0 && pktps`; a number of packets below 0 is `none`.
unfoldable pub lifts_limit : Option ℕ → Option ℕ → Bool
lifts_limit none limit = false
lifts_limit (some old) none = old == 0
lifts_limit (some old) (some limit) = (old == 0) && not (limit == 0)

unfoldable pub set_app_limit : ℕ → TcpSrc → Option ℕ → Outcome Effect TcpSrc
unfolding lifts_limit
set_app_limit now s limit = send_packets now record s {
  cwnd = if lifts_limit s.app_limited limit then s.mss else s.cwnd;
  ssthresh = 2 ^ 32 - 1;
  app_limited = limit;
}

unfoldable pub startflow : ℕ → TcpSrc → Outcome Effect TcpSrc
startflow now s = send_packets now record s { unacked = s.cwnd; established = false }

unfoldable pub effective_window : TcpSrc → ℕ
effective_window s = if s.in_fast_recovery then s.ssthresh else s.cwnd

unfoldable pub replace_route : TcpSrc → ℕ → TcpSrc
replace_route s route = record s {
  old_route = some s.route;
  route = route;
  last_packet_with_old_route = s.highest_sent;
  last_ping = time_inf;
}

unfoldable pub connect : TcpSrc → ℕ → ℕ → ℕ → Outcome Effect TcpSrc
connect s routeout routeback starttime =
    done (record s { route = routeout }) (sink_connected routeback ∷ pending starttime ∷ [])

-- `retransmit_packet`: its packet is the first that is not acknowledged.
unfoldable pub retransmit_packet : ℕ → TcpSrc → Outcome Effect TcpSrc
unfolding start_timer data_packet syn_packet
retransmit_packet now s =
    if s.established
    then done (start_timer now (record s { packets_sent = add64 s.packets_sent s.mss }))
        (sent (data_packet now s (add64 s.last_acked 1)) ∷ [])
    else (assert (s.highest_sent == 1) >> done s (sent (syn_packet s) ∷ []))

unfoldable pub deflate_window : TcpSrc → TcpSrc
deflate_window s = record s { ssthresh = max (s.cwnd / 2) (2 * s.mss) }
