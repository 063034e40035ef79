-- ===== src/Queues/EcnPrio/Runs.antt =====
-- The ECN queue with two priorities over a whole run. `rand()` gives what a function of the time gives.
use frontier_htsim.Prelude.{ℕ, ◌≢◌, ◌≡◌, Bool, List, [], some, arith, Ensures-mono}
use frontier_htsim.Network.{Packet, prio_none, prio_mid}
use frontier_htsim.Queues.Utilization.{BaseQueue}
use frontier_htsim.Queues.Port.{Discipline, Port, Input, Lawful, All, arrivals, run, run-Inv}
use frontier_htsim.Queues.EcnPrio.{EcnPrioQueue, init, receive_packet, complete_service}
use frontier_htsim.Queues.EcnPrio.Laws.{Inv, receive_packet-Inv, complete_service-First}

abbrev pub tossing : (ℕ → Bool) → Discipline EcnPrioQueue
tossing coin = record {
  receive = λ q now p. receive_packet q (coin now) p;
  complete = λ q now. complete_service q;
}

-- A packet of high or low priority.
abbrev pub TwoLevel : Packet → Type 0
TwoLevel p = (p.priority ≢ prio_none) × (p.priority ≢ prio_mid)

lawful : (coin : ℕ → Bool) → Lawful (tossing coin)
lawful coin = record {
  Inv = λ q n log ps. Inv q n;
  Admits = TwoLevel;
  receive-Inv = λ q n log ps now p v a. receive_packet-Inv q n (coin now) p a.0 a.1 v;
  complete-Inv = λ q n log ps now v.
      Ensures-mono _ _ (complete_service q) (λ q' es k. k.0) (complete_service-First q n v);
}

abbrev pub idle : EcnPrioQueue → Port EcnPrioQueue
idle q = record { queue = q; pending = 0; log = [] }

init-Inv :
    (base : BaseQueue) (maxsize_hi maxsize_lo thresh_hi thresh_lo : ℕ)
    → Inv (init base maxsize_hi maxsize_lo thresh_hi thresh_lo) 0
unfolding init
init-Inv base maxsize_hi maxsize_lo thresh_hi thresh_lo = ground arith

-- From a new ECN queue with two priorities no sequence of events and of packets that are all of high
-- or low priority fails an assertion, whichever way the coin falls. After it both sizes count the
-- bytes that are held, each within its limit, and one event is pending while there are packets, for
-- the queue that `_serv` names, and none otherwise.
pub run-idle_lanes :
    (coin : ℕ → Bool) (base : BaseQueue) (maxsize_hi maxsize_lo thresh_hi thresh_lo : ℕ)
    (is : List Input)
    → All TwoLevel (arrivals is)
    → (s : Port EcnPrioQueue) × (run
          (tossing coin)
          (idle (init base maxsize_hi maxsize_lo thresh_hi thresh_lo))
          is
        ≡ some s)
      × Inv s.queue s.pending
unfolding lawful
run-idle_lanes coin base maxsize_hi maxsize_lo thresh_hi thresh_lo is a =
    run-Inv (tossing coin) (lawful coin)
      (idle (init base maxsize_hi maxsize_lo thresh_hi thresh_lo)) [] is
      (init-Inv base maxsize_hi maxsize_lo thresh_hi thresh_lo) a
