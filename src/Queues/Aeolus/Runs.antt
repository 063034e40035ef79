-- ===== src/Queues/Aeolus/Runs.antt =====
-- The Aeolus queue over a whole run. `random()` gives what a function of the time gives.
use frontier_htsim.Prelude.{ℕ, ◌≢◌, ◌≡◌, List, [], some, done, arith}
use frontier_htsim.Network.{Packet, prio_none}
use frontier_htsim.Queues.Utilization.{BaseQueue}
use frontier_htsim.Queues.Port.{Discipline, Port, Input, Lawful, All, arrivals, run, run-Inv}
use frontier_htsim.Queues.Aeolus.{AeolusQueue, init, receive_packet, complete_service}
use frontier_htsim.Queues.Aeolus.Laws.{Inv, receive_packet-admission, complete_service-shares}

abbrev pub drawing : (ℕ → ℕ) → Discipline AeolusQueue
drawing random = record {
  receive = λ q now p. receive_packet q p;
  complete = λ q now. complete_service q (random now);
}

-- A packet that says which queue it wants.
abbrev pub Prioritized : Packet → Type 0
Prioritized p = p.priority ≢ prio_none

lawful : (random : ℕ → ℕ) → Lawful (drawing random)
lawful random = record {
  Inv = λ q n log ps. Inv q n;
  Admits = Prioritized;
  receive-Inv = λ q n log ps now p v a. receive_packet-admission q n p a v;
  complete-Inv = λ q n log ps now v. complete_service-shares q n (random now) v;
}

abbrev pub opened : AeolusQueue → Port AeolusQueue
opened q = record { queue = q; pending = 0; log = [] }

opened-Inv :
    (base : BaseQueue) (maxsize specsize : ℕ) (q : AeolusQueue)
    → init base maxsize specsize ≡ done q []
    → Inv q 0
unfolding init
opened-Inv base maxsize specsize q h = ground arith

-- From a new Aeolus queue no sequence of events and of packets that all have a priority fails an
-- assertion. After it both sizes count the bytes that are held, each within the queue's size, and one
-- event is pending while there are packets, for the queue that `_serv` names, and none otherwise.
pub run-opened :
    (random : ℕ → ℕ) (base : BaseQueue) (maxsize specsize : ℕ) (q : AeolusQueue) (is : List Input)
    → init base maxsize specsize ≡ done q []
    → All Prioritized (arrivals is)
    → (s : Port AeolusQueue) × (run (drawing random) (opened q) is ≡ some s) × Inv s.queue s.pending
unfolding lawful
run-opened random base maxsize specsize q is h a =
    run-Inv (drawing random) (lawful random) (opened q) [] is (opened-Inv base maxsize specsize q h)
      a
