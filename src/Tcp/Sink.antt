-- ===== src/Tcp/Sink.antt =====
-- `TcpSink` of sim/tcp.h and sim/tcp.cpp: what has arrived in order, and the sequence numbers of what
-- arrived beyond a hole. Sequence numbers are 64-bit words.
pub mod Holes
pub mod Prefix
pub mod Held
pub mod Arrivals
use frontier_htsim.Prelude.{
  ℕ, ◌+◌, ◌-◌, ◌/◌, ◌%◌, ◌^◌, Bool, true, false, List, [], ◌∷◌, ◌++◌, ltb, ◌==◌, if◌then◌else◌,
  add64, sub64,
}

pub record TcpSink : Type 0 where
  pub cumulative_ack : ℕ
  pub packets : ℕ
  pub drops : ℕ
  pub received : List ℕ

-- What `receivePacket` reads of a `TcpPacket`: its first byte, its size, its time and its CE bit.
pub record Segment : Type 0 where
  pub seqno : ℕ
  pub size : ℕ
  pub ts : ℕ
  pub marked : Bool

-- The `TcpAck` that `send_ack` sends.
pub record Ack : Type 0 where
  pub ackno : ℕ
  pub ts : ℕ
  pub echo : Bool

-- `connect`
unfoldable pub init : TcpSink
init = record { cumulative_ack = 0; packets = 0; drops = 0; received = [] }

unfoldable pub send_ack : TcpSink → ℕ → Bool → Ack
send_ack s ts marked = record { ackno = s.cumulative_ack; ts = ts; echo = marked }

-- `while (!_received.empty() && (_received.front() == _cumulative_ack+1)) { … }`
unfoldable pub drain : ℕ → ℕ → List ℕ → ℕ × List ℕ
drain size cum [] = (cum, [])
drain size cum (r ∷ rs) = elim (r == add64 cum 1) [
  | true ↦ drain size (add64 cum size) rs
  | false ↦ (cum, r ∷ rs)
]

-- The loop over `_received` for a segment that fills a hole, or has arrived before.
unfoldable pub fill_hole : ℕ → List ℕ → List ℕ
fill_hole seqno [] = []
fill_hole seqno (r ∷ rs) =
    let rest = r ∷ fill_hole seqno rs in
    if seqno == r then r ∷ rs else (if ltb seqno r then seqno ∷ r ∷ rs else rest)

-- `_received.back()` of `r ∷ rs`
unfoldable pub back : ℕ → List ℕ → ℕ
back r [] = r
back r (s ∷ rs) = back s rs

-- The list after a segment that is not the next one.
unfoldable pub store : ℕ → List ℕ → List ℕ
unfolding fill_hole back
store seqno [] = seqno ∷ []
store seqno (r ∷ rs) =
    if ltb (back r rs) seqno then (r ∷ rs) ++ seqno ∷ [] else fill_hole seqno (r ∷ rs)

-- `_drops` has 32 bits; it grows only at the first segment beyond a hole.
unfoldable pub count_drops : TcpSink → ℕ → List ℕ → ℕ
count_drops s seqno [] =
    (s.drops + sub64 (sub64 (add64 1000 seqno) s.cumulative_ack) 1 / 1000) % 2 ^ 32
count_drops s seqno (r ∷ rs) = s.drops

unfoldable pub arrive : TcpSink → ℕ → ℕ → TcpSink
arrive s seqno size =
    if seqno == add64 s.cumulative_ack 1
    then (let (cum, rest) = drain size (sub64 (add64 seqno size) 1) s.received in
        record s { cumulative_ack = cum; received = rest })
    else (if ltb seqno (add64 s.cumulative_ack 1)
        then s
        else record s { received = store seqno s.received; drops = count_drops s seqno s.received })

unfoldable pub receive_packet : TcpSink → Segment → TcpSink × Ack
unfolding arrive send_ack
receive_packet s p =
    let s' = arrive (record s { packets = add64 s.packets p.size }) p.seqno p.size in
    (s', send_ack s' p.ts p.marked)
