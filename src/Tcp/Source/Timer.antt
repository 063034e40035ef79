-- ===== src/Tcp/Source/Timer.antt =====
-- The retransmission timer of `TcpSrc` (sim/tcp.cpp): `rtx_timer_hook`, which `TcpRtxTimerScanner`
-- calls once in a period, and `doNextEvent`.
use frontier_htsim.Prelude.{
  ℕ, zero, suc, ◌+◌, ◌/◌, ◌%◌, ◌^◌, min, true, false, not, ◌||◌, [], ◌∷◌, ltb, leb, ◌==◌,
  if◌then◌else◌, add64, sub64, mul64, Outcome, done, return, assert, ◌>>◌, ◌>>=◌,
}
use frontier_htsim.Tcp.Source.{
  TcpSrc, Effect, pending_rel, time_inf, startflow, retransmit_packet, deflate_window,
}
use frontier_htsim.Tcp.Source.Ack.{low32, end_sawtooth}

-- `while(too_late > period) too_late >>= 1;`
unfoldable pub halve : ℕ → ℕ → ℕ → ℕ
halve zero period too_late = too_late
halve (suc fuel) period too_late = elim (ltb period too_late) [
  | true ↦ halve fuel period (too_late / 2)
  | false ↦ too_late
]

-- A 64-bit number is 0 after 64 halvings.
unfoldable pub restart_offset : ℕ → ℕ → ℕ
unfolding halve
restart_offset period too_late = sub64 period (halve 64 period too_late) / 200

-- What the line for the console prints divides by `_mss`.
unfoldable pub rtx_timer_hook : ℕ → ℕ → TcpSrc → Outcome Effect TcpSrc
unfolding restart_offset
rtx_timer_hook now period s =
    let rto = mul64 s.rto 2 in
    if leb now s.rto_timeout || (s.rto_timeout == time_inf) || (s.highest_sent == 0)
    then return s
    else (assert (not (s.mss == 0))
        >> (if s.rtx_timeout_pending
            then return s
            else done
                (record s { rtx_timeout_pending = true; rto = rto; rto_timeout = add64 now rto })
                (pending_rel (restart_offset period (sub64 now s.rto_timeout)) ∷ [])))

-- `doNextEvent` when a timeout is pending.
unfoldable pub time_out : ℕ → TcpSrc → Outcome Effect TcpSrc
unfolding deflate_window end_sawtooth retransmit_packet
time_out now s = do
  let flightsize = low32 s.highest_sent s.last_acked
  let shrunk = min s.ssthresh ((flightsize + s.mss) % 2 ^ 32)
  let cwnd = if s.in_fast_recovery then shrunk else s.cwnd
  let deflated = deflate_window (record s { cwnd = cwnd; rtx_timeout_pending = false })
  let back = if s.established then add64 s.last_acked s.mss else s.highest_sent
  s' ← retransmit_packet now record deflated {
    cwnd = s.mss;
    unacked = s.mss;
    effcwnd = s.mss;
    in_fast_recovery = false;
    recoverq = s.highest_sent;
    highest_sent = back;
    dupacks = 0;
  }
  return (end_sawtooth s')

unfoldable pub do_next_event : ℕ → TcpSrc → Outcome Effect TcpSrc
unfolding time_out startflow
do_next_event now s = if s.rtx_timeout_pending then time_out now s else startflow now s
