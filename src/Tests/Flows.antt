-- ===== src/Tests/Flows.antt =====
-- TCP: a sink that gets its segments out of order, and a source with a short history.
use frontier_htsim.Prelude.{
  ℕ, ◌+◌, ◌-◌, ◌*◌, ◌/◌, ◌<◌, ◌≡◌, refl, true, false, some, none, [], ◌∷◌, arith, Ensures,
}
use frontier_htsim.Tcp.Sink
use frontier_htsim.Tcp.Sink.{TcpSink, Ack, receive_packet}
use frontier_htsim.Tcp.Sink.Arrivals
use frontier_htsim.Tcp.Sink.Arrivals.{segment, numbers, acknowledges}
use frontier_htsim.Tcp.Sink.Holes.{has}
use frontier_htsim.Tcp.Source.{TcpSrc}
use frontier_htsim.Tcp.Source.Offset.{Halved, restart_offset-Halved}
use frontier_htsim.Tcp.Source.Timer.{restart_offset}
use frontier_htsim.Tcp.Source.Steady.{Steady}
use frontier_htsim.Tcp.Source.Steady.Runs.{acked, scanned, fired, limited, run, run-Steady}
use frontier_htsim.Tcp.Source.Recovery.{Begun, three_duplicates}

-- The sink after the first byte, which the SYN takes.
abbrev opened : TcpSink
opened = record { cumulative_ack = 1; packets = 1; drops = 0; received = [] }

acknowledges_example :
    (n : ℕ) × ((receive_packet
        (Arrivals.run 1 1500 opened ((3, 20, false) ∷ (2, 10, true) ∷ (0, 5, false) ∷ []))
        (segment 1 1500 (1, 30, false))).1.ackno
      ≡ 1 + n * 1500)
    × (has n (1 ∷ 3 ∷ 2 ∷ 0 ∷ []) ≡ false)
    × ((j : ℕ) → j < n → has j (1 ∷ 3 ∷ 2 ∷ 0 ∷ []) ≡ true)
acknowledges_example =
    acknowledges 1 1500 6 (omega arith) (omega arith) (1, 30, false)
      ((3, 20, false) ∷ (2, 10, true) ∷ (0, 5, false) ∷ []) opened
      (omega arith, (omega arith, (omega arith, (omega arith, tt)))) refl refl

-- All six segments of a window, the second of them missing at first.
acknowledges_result :
    (receive_packet
      (Arrivals.run 1 1500 opened ((3, 20, false) ∷ (2, 10, true) ∷ (0, 5, false) ∷ []))
      (segment 1 1500 (1, 30, false))).1.ackno
    ≡ 6001
unfolding receive_packet Sink.arrive Sink.send_ack Sink.drain Sink.store Sink.fill_hole Sink.back
acknowledges_result = refl

-- A source that has sent two segments and waits for their acknowledgements.
abbrev flow : TcpSrc
flow = record {
  mss = 1500;
  maxcwnd = 4294967295;
  sawtooth = 0;
  rtt_avg = 0;
  rtt_cum = 0;
  base_rtt = 20000;
  flow_size = 1000000;
  highest_sent = 3001;
  packets_sent = 3000;
  app_limited = none;
  established = true;
  effcwnd = 0;
  cwnd = 15000;
  ssthresh = 150000;
  last_acked = 1;
  last_ping = 0;
  dupacks = 0;
  rtt = 20000;
  rto = 250000000000;
  mdev = 0;
  recoverq = 0;
  in_fast_recovery = false;
  drops = 0;
  unacked = 0;
  dst = none;
  route = 4;
  old_route = none;
  last_packet_with_old_route = 0;
  rtx_timeout_pending = false;
  rto_timeout = 250000020000;
}

restart_offset-Halved_example :
    (y : ℕ) × Halved 1000000 5000000 y × (restart_offset 1000000 5000000 ≡ (1000000 - y) / 200)
restart_offset-Halved_example = restart_offset-Halved 1000000 5000000 (omega arith) (omega arith)

flow-Steady : Steady 1500 15000 flow
flow-Steady = record {
  opened = refl;
  same_mss = refl;
  mss_pos = omega arith;
  mss_window = omega arith;
  window_most = omega arith;
  mss_ssthresh = omega arith;
  mss_maxcwnd = omega arith;
  acked_sent = omega arith;
  sent_most = omega arith;
  acked_most = omega arith;
  small = omega arith;
}

abbrev ack : ℕ → ℕ → Ack
ack ackno ts = record { ackno = ackno; ts = ts; echo = false }

run-Steady_example :
    Ensures
      (λ s' fx. Steady 1500 52500 s')
      (run
        (acked 60000 (ack 1501 40000)
          ∷ scanned 400000000000 1000000
          ∷ fired 400000005000
          ∷ limited 400000006000 (some 7)
          ∷ acked 400000009000 (ack 3001 40000)
          ∷ [])
        flow)
run-Steady_example =
    run-Steady 1500 15000
      (acked 60000 (ack 1501 40000)
        ∷ scanned 400000000000 1000000
        ∷ fired 400000005000
        ∷ limited 400000006000 (some 7)
        ∷ acked 400000009000 (ack 3001 40000)
        ∷ [])
      flow (omega arith) (omega arith, (omega arith, tt)) flow-Steady

three_duplicates_example : Ensures (Begun 90000 1500 15000 1) (
    run
      (acked 70000 (ack 1 50000) ∷ acked 80000 (ack 1 50000) ∷ acked 90000 (ack 1 50000) ∷ [])
      flow)
three_duplicates_example =
    three_duplicates 1500 15000 70000 80000 90000 flow (ack 1 50000) (ack 1 50000) (ack 1 50000)
      (omega arith) flow-Steady refl refl (omega arith) refl refl refl
