-- ===== src/Tcp/Source/Ack.antt =====
-- `TcpSrc::receivePacket` and `inflate_window` of sim/tcp.cpp: how a source takes an acknowledgement.
use frontier_htsim.Prelude.{
  ℕ, ◌+◌, ◌-◌, ◌*◌, ◌/◌, ◌%◌, ◌^◌, min, true, false, not, ◌||◌, none, ltb, leb, ◌==◌, if◌then◌else◌,
  add64, sub64, mul64, Outcome, return, assert, ◌>>◌, ◌>>=◌,
}
use frontier_htsim.Tcp.Sink.{Ack}
use frontier_htsim.Tcp.Source.{
  TcpSrc, Effect, time_inf, time_from_ms, send_packets, retransmit_packet, deflate_window,
}

-- The difference of two sequence numbers in 32 bits.
abbrev pub low32 : ℕ → ℕ → ℕ
low32 a b = sub64 a b % 2 ^ 32

-- The smoothed round-trip time and the timeout after a sample `m` that is not 0.
unfoldable pub sample : ℕ → TcpSrc → TcpSrc
sample m s =
    let dev = if ltb s.rtt m then m - s.rtt else s.rtt - m in
    let mdev = if ltb 0 s.rtt then add64 (mul64 3 s.mdev / 4) (dev / 4) else m / 2 in
    let rtt = if ltb 0 s.rtt then add64 (mul64 7 s.rtt / 8) (m / 8) else m in
    record s {
      mdev = mdev;
      rtt = rtt;
      rto = add64 rtt (mul64 4 mdev);
      base_rtt = if (s.base_rtt == time_inf) || ltb m s.base_rtt then m else s.base_rtt;
    }

-- `compute rtt`, and the timeout of at least 250 ms.
unfoldable pub compute_rtt : ℕ → ℕ → TcpSrc → TcpSrc
unfolding sample
compute_rtt now ts s =
    let m = sub64 now ts in
    let s' = if m == 0 then s else sample m s in
    if ltb s'.rto (time_from_ms 250) then record s' { rto = time_from_ms 250 } else s'

unfoldable pub additive_increase : ℕ → TcpSrc → Outcome Effect TcpSrc
additive_increase newly_acked s = do
  assert (not (s.mss == 0))
  assert (not (s.cwnd == 0))
  let cwnd = (s.cwnd + (newly_acked * s.mss) % 2 ^ 32 / s.cwnd) % 2 ^ 32
  if s.cwnd / s.mss == cwnd / s.mss
      then return (record s { cwnd = cwnd })
      else return
          (record s { cwnd = cwnd; rtt_cum = add64 s.rtt_cum s.rtt; sawtooth = s.sawtooth + 1 })

-- `newly_acked` is a signed number of 32 bits. `queued_fraction` is read only in a multipath connection.
unfoldable pub inflate_window : TcpSrc → Outcome Effect TcpSrc
unfolding additive_increase
inflate_window s =
    let room = low32 (add64 s.last_acked s.cwnd) s.highest_sent in
    let newly_acked = min room s.mss in
    if leb (2 ^ 31) room
    then return s
    else (if ltb s.cwnd s.ssthresh
        then return (record s { cwnd = (s.cwnd + min (s.ssthresh - s.cwnd) newly_acked) % 2 ^ 32 })
        else additive_increase newly_acked s)

-- The timers and the old route at a new acknowledgement.
unfoldable pub restart_timer : ℕ → ℕ → TcpSrc → TcpSrc
restart_timer now seqno s =
    let all = leb s.highest_sent seqno in
    record s {
      old_route = if leb s.last_packet_with_old_route seqno then none else s.old_route;
      rto_timeout = if all then time_inf else add64 now s.rto;
      last_ping = if all then time_inf else now;
      highest_sent = if all then seqno else s.highest_sent;
    }

-- A new acknowledgement outside fast recovery.
unfoldable pub normal_ack : ℕ → ℕ → TcpSrc → Outcome Effect TcpSrc
unfolding inflate_window send_packets
normal_ack now seqno s = do
  s' ← inflate_window (record s { last_acked = seqno; dupacks = 0 })
  let cwnd = min s'.cwnd s'.maxcwnd
  send_packets now (record s' { cwnd = cwnd; unacked = cwnd; effcwnd = cwnd })

-- The acknowledgement of the whole recovery window.
unfoldable pub end_recovery : ℕ → ℕ → TcpSrc → Outcome Effect TcpSrc
end_recovery now seqno s =
    let flightsize = low32 s.highest_sent seqno in
    let cwnd = min s.ssthresh ((flightsize + s.mss) % 2 ^ 32) in
    send_packets now record s {
      cwnd = cwnd;
      unacked = cwnd;
      effcwnd = cwnd;
      last_acked = seqno;
      dupacks = 0;
      in_fast_recovery = false;
    }

-- An acknowledgement of a part of the recovery window.
unfoldable pub partial_ack : ℕ → ℕ → TcpSrc → Outcome Effect TcpSrc
unfolding retransmit_packet send_packets
partial_ack now seqno s = do
  let new_data = low32 seqno s.last_acked
  let left = if ltb new_data s.cwnd then s.cwnd - new_data else 0
  s' ← retransmit_packet now (record s { last_acked = seqno; cwnd = (left + s.mss) % 2 ^ 32 })
  send_packets now s'

unfoldable pub new_ack : ℕ → ℕ → TcpSrc → Outcome Effect TcpSrc
unfolding restart_timer
new_ack now seqno s =
    let s' = restart_timer now seqno s in
    if s.in_fast_recovery
    then (if leb s.recoverq seqno then end_recovery now seqno s' else partial_ack now seqno s')
    else normal_ack now seqno s'

-- A duplicate acknowledgement in fast recovery.
unfoldable pub dup_in_recovery : ℕ → TcpSrc → Outcome Effect TcpSrc
dup_in_recovery now s =
    let cwnd = min ((s.cwnd + s.mss) % 2 ^ 32) s.maxcwnd in
    let unacked = min s.ssthresh (add64 (sub64 s.highest_sent s.recoverq) s.mss % 2 ^ 32) in
    let fits = leb (add64 s.highest_sent s.mss) (add64 s.last_acked cwnd) in
    send_packets now
      record s { cwnd = cwnd; unacked = unacked; effcwnd = if fits then unacked else s.effcwnd }

-- The average of the round trips of the last sawtooth, and a new sawtooth.
unfoldable pub end_sawtooth : TcpSrc → TcpSrc
end_sawtooth s = record s {
  rtt_avg = if ltb 0 s.sawtooth then s.rtt_cum / s.sawtooth else 0;
  sawtooth = 0;
  rtt_cum = 0;
}

unfoldable pub begin_recovery : ℕ → TcpSrc → Outcome Effect TcpSrc
unfolding retransmit_packet end_sawtooth deflate_window
begin_recovery now s = do
  let deflated = deflate_window (record s { drops = (s.drops + 1) % 2 ^ 32 })
  s' ← retransmit_packet now (end_sawtooth deflated)
  return record s' {
    cwnd = (s'.ssthresh + 3 * s'.mss) % 2 ^ 32;
    unacked = s'.ssthresh;
    effcwnd = 0;
    in_fast_recovery = true;
    recoverq = s'.highest_sent;
  }

-- A duplicate acknowledgement; the third begins fast recovery, unless an earlier loss is not recovered.
unfoldable pub duplicate_ack : ℕ → TcpSrc → Outcome Effect TcpSrc
unfolding begin_recovery dup_in_recovery send_packets
duplicate_ack now s =
    let s' = record s { dupacks = (s.dupacks + 1) % 2 ^ 16 } in
    if s.in_fast_recovery
    then dup_in_recovery now s
    else (if not (s'.dupacks == 3)
        then send_packets now s'
        else (if ltb s.last_acked s.recoverq then return s' else begin_recovery now s'))

unfoldable pub receive_packet : ℕ → TcpSrc → Ack → Outcome Effect TcpSrc
unfolding compute_rtt new_ack duplicate_ack
receive_packet now s p =
    let opened = record s { established = s.established || (p.ackno == 1) } in
    let s' = compute_rtt now p.ts opened in
    if ltb p.ackno s.last_acked
    then return s
    else (if ltb s.last_acked p.ackno then new_ack now p.ackno s' else duplicate_ack now s')
