-- ===== src/Tests/Eqds.antt =====
-- EQDS: a sink, the bitmap that it sends, and a pacer with two sinks.
use frontier_htsim.Prelude.{
  ℕ, ◌≡◌, refl, false, List, [], ◌∷◌, none, some, arith, Ensures, ◌==◌, if◌then◌else◌,
}
use frontier_htsim.Tests.Samples.{urgent}
use frontier_htsim.Eqds.Packets.{EqdsDataPacket, data_spec}
use frontier_htsim.Eqds.Acks.{sacked}
use frontier_htsim.Eqds.Sink
use frontier_htsim.Eqds.Sink.{EqdsSink, ModularVector, build_sack_bitmap, of_data, at}
use frontier_htsim.Eqds.Sink.Bitmap.{marked, sacked-build_sack_bitmap}
use frontier_htsim.Eqds.Sink.Acked.{Keeps, Good}
use frontier_htsim.Eqds.Sink.Arrivals.{arrived, receive_packet-Good}
use frontier_htsim.Eqds.Nic.Runs as NicRuns
use frontier_htsim.Eqds.Nic.Runs.{
  NicInput, requests, controls, waits, fires, replies, Link, Orderly, idle_link, run-idle_link,
}
use frontier_htsim.Eqds.Pacer.{Pulling}
use frontier_htsim.Eqds.Pacer.Laws as PacerLaws
use frontier_htsim.Eqds.Pacer.Runs as PacerRuns
use frontier_htsim.Eqds.Pacer.Runs.{
  PullInput, gets_data, gets_trimmed, gets_rts, fires, quiet, run-quiet,
}

-- Packet 5 has arrived.
abbrev five : ModularVector
five i = if i == 5 then 1 else 0

sacked-build_sack_bitmap_example :
    sacked 64 (build_sack_bitmap five 3).0 3 ≡ some (marked five 3 64)
sacked-build_sack_bitmap_example = sacked-build_sack_bitmap five 3

abbrev fresh : EqdsSink
fresh = Sink.init 12000 16384 4160

-- Packet 2 is the first to arrive.
abbrev third : EqdsDataPacket
third = record {
  epsn = 2;
  size = 4160;
  packet_type = data_spec;
  pull_target = 10;
  path_id = 7;
  ce = false;
  ar = false;
  is_header = false;
}

fresh-Keeps : Keeps (λ j. false) fresh
unfolding Sink.init at
fresh-Keeps = record {
  below = λ j l. absurd (omega (arith, l));
  hole = refl;
  window = λ i l. refl;
  above = λ j l. refl;
}

receive_packet-Good_example :
    Ensures
      (Good (arrived (λ j. false) (of_data third)))
      (Sink.receive_packet fresh (of_data third))
unfolding Sink.init
receive_packet-Good_example =
    receive_packet-Good (λ j. false) fresh (of_data third) fresh-Keeps
      (omega arith, λ e. omega arith)

-- Sink 1 has data to come and loses a packet, and sink 2 starts with an RTS.
abbrev two_sinks : List PullInput
two_sinks = gets_data 1 20 ∷ fires ∷ gets_trimmed 1 28 9 ∷ gets_rts 2 5 8 ∷ fires ∷ fires ∷ []

run-quiet_example :
    (q : Pulling × ℕ) × (PacerRuns.run (quiet 1000 8 (λ i. 65536), 0) two_sinks ≡ some q)
    × PacerLaws.Inv q.0.pacer q.0.sinks q.1
run-quiet_example = run-quiet 1000 8 (λ i. 65536) two_sinks (omega arith, (omega arith, tt))

-- A source sends at once, another waits with a control packet behind it, and both get their turns.
abbrev busy_link : List NicInput
busy_link =
    waits 5
    ∷ requests 1 (some 4160)
    ∷ requests 2 none
    ∷ controls urgent
    ∷ controls urgent
    ∷ fires
    ∷ fires
    ∷ replies none
    ∷ fires
    ∷ []

-- `_control_size` holds 5000 at the start.
run-idle_link_example :
    (w : Link) × (NicRuns.run (idle_link 100000000000 5000) busy_link ≡ some w) × Orderly 5000 w
run-idle_link_example = run-idle_link 100000000000 5000 busy_link (omega arith)
