-- ===== src/Eqds/Sink.antt =====
-- `ModularVector` and `EqdsSink` of sim/eqds.h and sim/eqds.cpp: which packets have arrived, and the
-- acknowledgements for them. Of the source a sink knows the size of the flow.
pub mod Bitmap
pub mod Window
pub mod Acked
pub mod Answers
pub mod Arrivals
use frontier_htsim.Prelude.{
  ℕ, zero, suc, ◌+◌, ◌-◌, ◌*◌, ◌/◌, ◌%◌, ◌^◌, max, Bool, true, false, not, ◌&&◌, ◌||◌, List, [],
  ◌∷◌, Option, none, some, ltb, leb, ◌==◌, if◌then◌else◌, Outcome, done, aborted, ◌>>=◌, ◌>>◌, emit,
  assert, return, or_abort,
}
use frontier_htsim.Eqds.Packets.{
  EqdsDataPacket, EqdsRtsPacket, EqdsAckPacket, EqdsNackPacket, acksize, quantize_ceil,
}
use frontier_htsim.Eqds.Pulls.{PullState, Request, handle_pull_target, retransmit, rts}
use frontier_htsim.Eqds.Pulls

-- `ModularVector<uint8_t, 1 << 12>`: an element for each remainder.
abbrev pub ModularVector : Type 0
ModularVector = ℕ → ℕ

unfoldable pub at : ModularVector → ℕ → ℕ
at buf idx = buf (idx % 2 ^ 12)

unfoldable pub put : ModularVector → ℕ → ℕ → ModularVector
put buf idx v j = if j == idx % 2 ^ 12 then v else buf j

-- `credit_per_pull`, `bytes_unacked_threshold` and `mtu` are static.
pub record EqdsSink : Type 0 where
  pub pulls : PullState
  pub expected_epsn : ℕ
  pub high_epsn : ℕ
  pub received_bytes : ℕ
  pub accepted_bytes : ℕ
  pub epsn_rx_bitmap : ModularVector
  pub out_of_order_count : ℕ
  pub ack_request : Bool
  pub duplicates : ℕ
  pub out_of_order : ℕ
  pub num_trimmed : ℕ
  pub received : ℕ
  pub bytes_received : ℕ
  pub flow_size : ℕ
  pub bytes_unacked_threshold : ℕ
  pub mtu : ℕ

unfoldable pub init : ℕ → ℕ → ℕ → EqdsSink
unfolding Pulls.init
init flow_size bytes_unacked_threshold mtu = record {
  pulls = Pulls.init;
  expected_epsn = 0;
  high_epsn = 0;
  received_bytes = 0;
  accepted_bytes = 0;
  epsn_rx_bitmap = λ i. 0;
  out_of_order_count = 0;
  ack_request = false;
  duplicates = 0;
  out_of_order = 0;
  num_trimmed = 0;
  received = 0;
  bytes_received = 0;
  flow_size = flow_size;
  bytes_unacked_threshold = bytes_unacked_threshold;
  mtu = mtu;
}

-- `asks` is a request to the pacer, `sends_control` the NIC's `sendControlPacket`, and `sends_ack`
-- `sendOn`.
pub data SinkEffect : Type 0 where
  asks : Request → SinkEffect
  sends_control : EqdsAckPacket → SinkEffect
  sends_nack : EqdsNackPacket → SinkEffect
  sends_ack : EqdsAckPacket → SinkEffect
  frees : SinkEffect

abbrev pub as_asks : List Request → List SinkEffect
as_asks [] = []
as_asks (r ∷ rs) = asks r ∷ as_asks rs

-- The pacer's part of a handler within the sink's.
abbrev pub with_pulls : EqdsSink → Outcome Request PullState → Outcome SinkEffect EqdsSink
with_pulls s (done p rs) = done (record s { pulls = p }) (as_asks rs)
with_pulls s aborted = aborted

-- A bit of the bitmap.
abbrev pub bit : Bool → ℕ
bit true = 1
bit false = 0

abbrev pub is_set : ModularVector → ℕ → Bool
is_set buf idx = not (at buf idx == 0)

-- `n` rounds of the loop of `buildSackBitmap`, of which the next looks at `idx`. The top bit is clear
-- after the shift, so that the `|` is a sum.
unfoldable pub build_loop : ℕ → ModularVector → ℕ → ℕ → ℕ × ModularVector
unfolding at put
build_loop zero buf idx bitmap = (bitmap, buf)
build_loop (suc n) buf idx bitmap =
    build_loop n
      (if is_set buf idx && ltb (at buf idx) 255 then put buf idx (at buf idx + 1) else buf)
      (idx + 1) (bitmap / 2 + bit (is_set buf idx) * 2 ^ 63)

unfoldable pub build_sack_bitmap : ModularVector → ℕ → ℕ × ModularVector
unfolding build_loop
build_sack_bitmap buf ref_epsn =
    build_loop 63 buf (ref_epsn + 1) (bit (is_set buf ref_epsn) * 2 ^ 63)

unfoldable pub sack : EqdsSink → ℕ → ℕ → Bool → EqdsSink × EqdsAckPacket
unfolding build_sack_bitmap
sack s path_id seqno ce =
    let (bitmap, buf) = build_sack_bitmap s.epsn_rx_bitmap seqno in
    (
      record s { epsn_rx_bitmap = buf },
      record {
        cumulative_ack = s.expected_epsn;
        ref_ack = seqno;
        ev = path_id;
        ecn_echo = ce;
        sack_bitmap = bitmap;
      },
    )

unfoldable pub sack_bitmap_base : EqdsSink → ℕ → ℕ
sack_bitmap_base s epsn = max (epsn - 63) (s.expected_epsn + 1)

unfoldable pub should_sack : EqdsSink → Bool
should_sack s = ltb s.bytes_unacked_threshold s.accepted_bytes

-- The test for a packet that the sink has.
unfoldable pub is_duplicate : EqdsSink → ℕ → Bool
unfolding at
is_duplicate s epsn = ltb epsn s.expected_epsn || is_set s.epsn_rx_bitmap epsn

-- `while (_epsn_rx_bitmap[++_expected_epsn])` with fuel; `none` means that the fuel ran out.
unfoldable pub advance : ℕ → ModularVector → ℕ → ℕ → Option (ModularVector × ℕ × ℕ)
unfolding at put
advance zero buf expected count = none
advance (suc fuel) buf expected count =
    let rest =
      advance fuel (put buf (expected + 1) 0) (expected + 1) ((count + 2 ^ 32 - 1) % 2 ^ 32) in
    if at buf (expected + 1) == 0 then some (buf, expected + 1, count) else rest

-- The state after that loop; without fuel there is none.
unfoldable pub settle : EqdsSink → Option (ModularVector × ℕ × ℕ) → Outcome SinkEffect EqdsSink
settle s none = aborted
settle s (some (buf, expected, count)) =
    return (record s { epsn_rx_bitmap = buf; expected_epsn = expected; out_of_order_count = count })

-- The next expected packet arrives.
unfoldable pub in_order : EqdsSink → Outcome SinkEffect EqdsSink
unfolding settle
in_order s = settle s (advance 4096 s.epsn_rx_bitmap s.expected_epsn s.out_of_order_count)

unfoldable pub beyond : EqdsSink → ℕ → EqdsSink
unfolding put
beyond s epsn = record s {
  epsn_rx_bitmap = put s.epsn_rx_bitmap epsn 1;
  out_of_order_count = (s.out_of_order_count + 1) % 2 ^ 32;
  out_of_order = s.out_of_order + 1;
}

-- An acknowledgement goes out, and the count of bytes starts again.
unfoldable pub send_sack : EqdsSink → ℕ → ℕ → Bool → Outcome SinkEffect EqdsSink
unfolding sack
send_sack s path_id seqno ce = do
  let (s', ack) = sack s path_id seqno ce
  emit (sends_control ack)
  return (record s' { accepted_bytes = 0 })

unfoldable pub send_sack_if : Bool → EqdsSink → ℕ → ℕ → Bool → Outcome SinkEffect EqdsSink
unfolding send_sack
send_sack_if true s path_id seqno ce = send_sack s path_id seqno ce
send_sack_if false s path_id seqno ce = return s

-- The end of `processData`: an acknowledgement, if there is a reason for one.
unfoldable pub answer : EqdsSink → EqdsDataPacket → Bool → Bool → Outcome SinkEffect EqdsSink
unfolding should_sack sack_bitmap_base send_sack_if
answer s pkt was_next force =
    let filled = was_next && (s.out_of_order_count == 0 && s.ack_request) in
    let s' = record s { ack_request = not filled && s.ack_request } in
    send_sack_if (pkt.ce || (should_sack s' || (force || filled))) s' pkt.path_id
      (if pkt.ce || pkt.ar then pkt.epsn else sack_bitmap_base s' pkt.epsn) pkt.ce

-- A packet that the sink does not have is counted in.
unfoldable pub accept : EqdsSink → ℕ → Outcome SinkEffect EqdsSink
unfolding in_order beyond
accept s epsn = if epsn == s.expected_epsn then in_order s else return (beyond s epsn)

-- `processData` where the packet is new. A packet is taken to have at least the bytes of
-- a header, `acksize`.
unfoldable pub new_data : EqdsSink → EqdsDataPacket → Outcome SinkEffect EqdsSink
unfolding answer accept
new_data s pkt = do
  let bytes = s.received_bytes + pkt.size - acksize
  assert (leb bytes s.flow_size)
  s' ← accept (record s { received_bytes = bytes; ack_request = s.ack_request || pkt.ar }) pkt.epsn
  answer s' pkt (pkt.epsn == s.expected_epsn) (s.received_bytes == 0 || pkt.ar)

unfoldable pub process_data : EqdsSink → EqdsDataPacket → Outcome SinkEffect EqdsSink
unfolding is_duplicate sack_bitmap_base send_sack new_data
process_data s pkt = do
  s1 ←
      with_pulls (record s { accepted_bytes = (s.accepted_bytes + pkt.size) % 2 ^ 16 })
        (handle_pull_target s.pulls pkt.pull_target)
  let s2 = record s1 { high_epsn = max s1.high_epsn pkt.epsn }
  if is_duplicate s2 pkt.epsn
      then send_sack (record s2 { duplicates = s2.duplicates + 1 }) pkt.path_id
          (if pkt.ce then pkt.epsn else sack_bitmap_base s2 pkt.epsn) pkt.ce
      else new_data s2 pkt

-- `processTrimmed` where the packet is missing.
unfoldable pub ask_again : EqdsSink → EqdsDataPacket → Outcome SinkEffect EqdsSink
ask_again s pkt = do
  s' ← with_pulls s (handle_pull_target s.pulls pkt.pull_target)
  emit (sends_nack (record { ref_epsn = pkt.epsn; ev = pkt.path_id }))
  with_pulls s' (retransmit s'.pulls (quantize_ceil s'.mtu))

unfoldable pub process_trimmed : EqdsSink → EqdsDataPacket → Outcome SinkEffect EqdsSink
unfolding is_duplicate sack ask_again
process_trimmed s pkt =
    let s1 = record s { num_trimmed = s.num_trimmed + 1 } in
    if is_duplicate s1 pkt.epsn
    then (do let (s2, ack) = sack s1 pkt.path_id pkt.epsn false; emit (sends_ack ack); return s2)
    else ask_again s1 pkt

-- `processRts` where its number is new.
unfoldable pub new_rts : EqdsSink → EqdsRtsPacket → Outcome SinkEffect EqdsSink
unfolding accept sack_bitmap_base send_sack
new_rts s pkt = do
  s' ← accept (record s { received_bytes = s.received_bytes + pkt.size - acksize }) pkt.epsn
  let filled = (pkt.epsn == s.expected_epsn) && (s'.out_of_order_count == 0 && s'.ack_request)
  let s'' = record s' { ack_request = not filled && s'.ack_request }
  send_sack s'' pkt.path_id (if pkt.ce || pkt.ar then pkt.epsn else sack_bitmap_base s'' pkt.epsn)
      pkt.ce

unfoldable pub process_rts : EqdsSink → EqdsRtsPacket → Outcome SinkEffect EqdsSink
unfolding is_duplicate send_sack new_rts
process_rts s pkt = do
  assert pkt.ar
  s1 ← with_pulls s (rts s.pulls pkt.pull_target pkt.retx_backlog)
  if is_duplicate s1 pkt.epsn
      then send_sack (record s1 { duplicates = s1.duplicates + 1 }) pkt.path_id pkt.epsn pkt.ce
      else new_rts s1 pkt

-- What a sink can receive; a packet of another type is `abort`.
pub data SinkArrival : Type 0 where
  of_data : EqdsDataPacket → SinkArrival
  of_rts : EqdsRtsPacket → SinkArrival
  of_other_type : ℕ → SinkArrival

abbrev pub size_of : SinkArrival → ℕ
size_of (of_data pkt) = pkt.size
size_of (of_rts pkt) = pkt.size
size_of (of_other_type size) = size

-- The `switch` of `receivePacket`.
unfoldable pub process : EqdsSink → SinkArrival → Outcome SinkEffect EqdsSink
unfolding process_data process_trimmed process_rts
process s (of_data pkt) = if pkt.is_header then process_trimmed s pkt else process_data s pkt
process s (of_rts pkt) = process_rts s pkt
process s (of_other_type size) = aborted

unfoldable pub receive_packet : EqdsSink → SinkArrival → Outcome SinkEffect EqdsSink
unfolding process
receive_packet s pkt = do
  s' ←
      process
        (record s { received = s.received + 1; bytes_received = s.bytes_received + size_of pkt })
        pkt
  emit frees
  return s'
