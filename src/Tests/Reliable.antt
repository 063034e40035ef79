-- ===== src/Tests/Reliable.antt =====
-- EQDS: a source with four packets on their way gets an acknowledgement.
use frontier_htsim.Prelude.{
  ℕ, ◌≡◌, refl, Bool, true, false, ◌||◌, List, [], ◌∷◌, some, ltb, ◌==◌, arith, Ensures,
}
use frontier_htsim.Eqds.Packets.{EqdsAckPacket, EqdsDataPacket, data_spec}
use frontier_htsim.Eqds.Sink
use frontier_htsim.Eqds.Sink.{of_data, at}
use frontier_htsim.Eqds.Reliable
use frontier_htsim.Eqds.Reliable.{
  Pair, PairInput, arrives, delivers, AllFit, Reliable, held, run-Reliable,
}
use frontier_htsim.Eqds.Acks.{sacked}
use frontier_htsim.Eqds.Sink.Acked.{Truthful}
use frontier_htsim.Eqds.Source.{EqdsSrc, SendRecord, process_acknos}
use frontier_htsim.Eqds.Source.Settled.{Sound, Settled, process_acknos-Settled}

abbrev sent_at : ℕ → SendRecord
sent_at t = record { pkt_size = 4160; send_time = t }

abbrev busy : EqdsSrc
busy = record {
  tx_bitmap = (1, sent_at 10) ∷ (2, sent_at 20) ∷ (3, sent_at 30) ∷ (4, sent_at 40) ∷ [];
  send_times = (10, 1) ∷ (20, 2) ∷ (30, 3) ∷ (40, 4) ∷ [];
  rtx_queue = (0, 4160) ∷ [];
  in_flight = 16640;
  rto = 100;
  rtx_timeout_pending = true;
  rtx_timeout = 110;
  rto_send_time = 10;
  endtime = 0;
}

-- The sink keeps all below 2, and 3.
abbrev kept : ℕ → Bool
kept n = ltb n 2 || n == 3

abbrev for_three : EqdsAckPacket
for_three = record { cumulative_ack = 2; ref_ack = 3; ev = 0; ecn_echo = false; sack_bitmap = 1 }

for_three-Truthful : Truthful kept for_three
unfolding sacked
for_three-Truthful = record {
  below = λ j l. ground (arith, l);
  first = refl;
  numbers = 3 ∷ [];
  read = refl;
  selected = (refl, tt);
}

busy-Sound : Sound busy
busy-Sound = record {
  covered = omega arith;
  ascending_tx = (omega arith, (omega arith, (omega arith, (omega arith, tt))));
  ascending_rtx = (omega arith, tt);
}

process_acknos-Settled_example :
    Ensures (λ t es. Settled kept for_three busy t) (process_acknos busy for_three 60)
process_acknos-Settled_example =
    process_acknos-Settled kept busy for_three 60 for_three-Truthful busy-Sound

abbrev first_data : EqdsDataPacket
first_data = record {
  epsn = 0;
  size = 4160;
  packet_type = data_spec;
  pull_target = 10;
  path_id = 7;
  ce = false;
  ar = true;
  is_header = false;
}

abbrev start : Pair
start = record { source = busy; sink = Sink.init 16640 16384 4160; kept = λ j. false; acks = [] }

start-Reliable : Reliable start
unfolding Sink.init at
start-Reliable = record {
  keeps = record {
    below = λ j l. absurd (omega (arith, l));
    hole = refl;
    window = λ i l. refl;
    above = λ j l. refl;
  };
  sound = busy-Sound;
  known = tt;
}

-- The first packet arrives, and its acknowledgement reaches the source twice.
abbrev exchange : List PairInput
exchange = arrives (of_data first_data) ∷ delivers 0 60 ∷ delivers 0 70 ∷ []

run-Reliable_example :
    (v : Pair) × (Reliable.run start exchange ≡ some v)
    × Reliable v
    × ((n : ℕ) → held start n ≡ true → held v n ≡ true)
unfolding Sink.init
run-Reliable_example =
    run-Reliable exchange start ((omega arith, λ e. omega arith), λ v e u f x g. tt) start-Reliable
